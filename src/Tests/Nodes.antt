-- ===== src/Tests/Nodes.antt =====
-- A node that sends deltas, with one player on a connection, and the ticks of a battle.
use atlas_game_layout.Common.{
  nat_key, ℕ, true, false, [], ◌∷◌, none, some, ◌≡◌, refl, lookup, string_key, if◌then◌else◌, arith,
  All, ◌==◌,
}
use atlas_game_layout.Registry.State.{
  Engine, Conn, Registry, ClientState, EndpointRef, conn_key, endpoint_key, new_registry,
}
use atlas_game_layout.Registry.Plan.{Target, decide_full, commit_send, request_keyframe}
use atlas_game_layout.Registry.Plan.Decide.{request_keyframe-decide_full}
use atlas_game_layout.Registry.Plan.Keyframes.{here, sends, request_keyframe_limit}
use atlas_game_layout.Registry.Publish.{Wire, sent, gone, publish_frames}
use atlas_game_layout.Registry.Publish.Links.{IsLinked, Carries, publish_frames-Carries}
use atlas_game_layout.Tests.Frames.{frames, nanos}

abbrev engine : Engine
engine = record { udp = "udp"; format_uint = λ n. if n == 1 then "1" else "2" }

abbrev old_conn : Conn
old_conn = record { kind = "ws"; conn_id = 1; peer = ""; battle_id = "b1" }

abbrev new_conn : Conn
new_conn = record { kind = "ws"; conn_id = 2; peer = ""; battle_id = "b1" }

abbrev back : EndpointRef
back = record { player_id = "ann"; battle_id = "b1" }

abbrev ann_state : ClientState
ann_state = record {
  last_seq = 1;
  payload_ver = 3;
  keyframe_requested = false;
  last_keyframe_req = none;
}

-- "ann" has agreed on deltas and has got frame 1, which is the link of the battle.
abbrev node : Registry ℕ
node = record (new_registry 100) {
  conns = ("ann", old_conn) ∷ [];
  endpoints = (record { kind = "ws"; id = "1" }, back) ∷ [];
  ports = "ws" ∷ [];
  push_ver = 2;
  delta = true;
  key_every = 300;
  key_interval = 200;
  links = ("b1", record { frame = frames 1; seq = 1 }) ∷ [];
  states = ("ann", ann_state) ∷ [];
}

request_keyframe-decide_full_example :
    let r' = (request_keyframe node 10 "ann").0 in
    let r'' = commit_send r' "ann" old_conn 2 false in
    (decide_full engine r' "ws" (lookup "ann" r'.states) 3 true ≡ true)
    × (decide_full engine r'' "ws" (lookup "ann" r''.states) 3 true ≡ true)
unfolding request_keyframe new_registry
request_keyframe-decide_full_example =
    request_keyframe-decide_full engine node 10 "ann" old_conn 2 3 true refl

-- 150 ns after a request that was granted, and after frame 2.
abbrev after_frame_2 : Registry ℕ
after_frame_2 = commit_send (request_keyframe node 10 "ann").0 "ann" old_conn 2 true

request_keyframe_limit_example : (request_keyframe after_frame_2 160 "ann").1 ≡ false
unfolding request_keyframe new_registry
request_keyframe_limit_example =
    request_keyframe_limit engine "ann" node after_frame_2 10 160 refl (sends old_conn 2 true here)
      (omega arith)

abbrev wire : Wire ℕ
wire = record {
  encode_full = λ bc. some (bc.frame.frame_id ∷ []);
  encode_delta = λ d. some (d.seq ∷ d.base_seq ∷ []);
  push_raw = λ p. if p.ver == 3 then sent else gone;
}

publish_frames-Carries_example :
    let (r', _, pushes) = publish_frames engine wire node "b1" ("ann" ∷ []) (frames 2) in
    All (Carries frames wire 2 "b1" 2) pushes × IsLinked frames r' "b1"
unfolding new_registry
publish_frames-Carries_example =
    publish_frames-Carries frames engine wire node "b1" 2 ("ann" ∷ []) node-IsLinked refl
      (omega arith)
  where
    node-IsLinked : IsLinked frames node "b1"
    node-IsLinked l at = ground arith

abbrev ann_target : Target
ann_target = record { player_id = "ann"; conn = old_conn; ver = 3; full = false }

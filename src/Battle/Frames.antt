-- ===== src/Battle/Frames.antt =====
-- The frames of a battle, battle_frame.go, battle_keyframe.go and battle_ping.go: inputs that go to
-- the lockstep session, and frames that come from it. The JSON decoder of a snapshot's state is a
-- parameter.
use atlas_game_layout.Common.{
  ℕ, ◌/◌, ◌%◌, ◌^◌, String, Bool, false, List, [], ◌∷◌, map, Option, none, some, length, ltb, ◌==◌,
  ◌&&◌, string_key, Bytes, if◌then◌else◌,
}
use atlas_game_layout.Frame as frame_messages
use atlas_game_layout.Frame.{Frame, Snapshot}
use atlas_game_layout.Simulator as simulator
use atlas_game_layout.Simulator.{State}
use atlas_game_layout.Battle.{
  has, sorted_keys, Config, World, Battle, player_input, publish_frames, request_keyframe, tell,
  settle,
}

-- `lockstep.Snapshot` and `lockstep.FrameResult`.
pub record SessionSnapshot : Type 0 where
  pub frame : ℕ
  pub state : Bytes
  pub hash : ℕ

pub record FrameResult : Type 0 where
  pub frame : ℕ
  pub inputs : List simulator.Input
  pub snapshot : Option SessionSnapshot
  pub hash : ℕ
  pub has_hash : Bool

pub data Refusal : Type 0 where
  no_sender not_listed undelivered : Refusal

-- `senderPlayer`.
unfoldable pub sender_player : Option String → Option String
sender_player none = none
sender_player (some p) = if p == "" then none else some p

-- `SendFrameInput`.
unfoldable pub send_frame_input :
    World → Option String → ℕ → Bytes → Battle → Battle × Option Refusal
unfolding sender_player
send_frame_input w sender frame payload b = elim (sender_player sender) [
  | none ↦ (b, some no_sender)
  | some p ↦
      let message = player_input p frame payload in
      if has p b.players
      then (tell message b, if w.delivered message then none else some undelivered)
      else (b, none)
]

-- `RequestFrameKeyframe`.
unfoldable pub request_frame_keyframe : Option String → ℕ → Battle → Battle × Option Refusal
unfolding sender_player
request_frame_keyframe sender last_seq b = elim (sender_player sender) [
  | none ↦ (b, some no_sender)
  | some p ↦
      if has p b.players then (tell (request_keyframe p last_seq) b, none) else (b, some not_listed)
]

-- `Ping`.
unfoldable pub ping : Battle → Battle
ping b = b

-- `hashBytes`.
unfoldable pub hash_bytes : ℕ → Bytes
hash_bytes h =
    (h / 2 ^ 56 % 256)
    ∷ (h / 2 ^ 48 % 256)
    ∷ (h / 2 ^ 40 % 256)
    ∷ (h / 2 ^ 32 % 256)
    ∷ (h / 2 ^ 24 % 256)
    ∷ (h / 2 ^ 16 % 256)
    ∷ (h / 2 ^ 8 % 256)
    ∷ (h % 256)
    ∷ []

-- `frameStateHash`.
unfoldable pub frame_state_hash : FrameResult → Bytes
unfolding hash_bytes
frame_state_hash r = if r.has_hash then hash_bytes r.hash else []

-- `snapshotMeta`.
unfoldable pub snapshot_meta : Option SessionSnapshot → Option Snapshot
unfolding hash_bytes
snapshot_meta none = none
snapshot_meta (some s) = some record {
  frame_id = s.frame;
  state_hash = hash_bytes s.hash;
  size_bytes = length s.state;
  storage_key = "";
}

-- `toPBInput`.
unfoldable pub to_pb_input : simulator.Input → frame_messages.Input
to_pb_input i = record {
  frame_id = i.frame;
  player_id = i.player;
  payload = i.payload;
  predicted = false;
  client_send_time = 0;
}

module _ (decode : Bytes → Option State) (cfg : Config) (w : World) where
  -- `checkSettle`, from what the decoder gives.
  abbrev pub settle_decoded : ℕ → Option State → Battle → Battle
  settle_decoded frame none b = b
  settle_decoded frame (some st) b =
      if (st.winner == "") && ltb frame cfg.max_frames
      then b
      else settle cfg w (record { winner = st.winner; frames = frame; scores = st.scores }) b

  unfoldable pub check_settle : FrameResult → SessionSnapshot → Battle → Battle
  check_settle r s b = settle_decoded r.frame (decode s.state) b

  -- The message that `onFrameResult` broadcasts.
  unfoldable pub frame_message : FrameResult → Frame ℕ
  unfolding snapshot_meta frame_state_hash to_pb_input
  frame_message r = record {
    frame_id = r.frame;
    inputs = map to_pb_input r.inputs;
    state_hash = frame_state_hash r;
    server_time = some w.now;
    snapshot = snapshot_meta r.snapshot;
  }

  -- The end of `onFrameResult`, after the broadcast.
  abbrev pub settle_snapshot : FrameResult → Option SessionSnapshot → Battle → Battle
  settle_snapshot r none b = b
  settle_snapshot r (some s) b = if b.settled then b else check_settle r s b

  -- `onFrameResult`.
  unfoldable pub on_frame_result : FrameResult → Battle → Battle
  unfolding frame_message
  on_frame_result r b = settle_snapshot r r.snapshot (
      tell (publish_frames (sorted_keys b.players) (frame_message r))
        (record b { last_frame = r.frame }))

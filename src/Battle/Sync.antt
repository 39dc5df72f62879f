-- ===== src/Battle/Sync.antt =====
-- What players ask of a battle, battle_session.go: to join, to be sent the frames they missed, and
-- the state. The replies of the lockstep session, of the registry and of the limit on a packet are
-- parameters; `none` is a failed question or a reply of another type.
use Prim.Native.String.{◌++◌}
use atlas_game_layout.Common.{
  ℕ, ◌/◌, ◌%◌, ◌^◌, String, false, List, [], ◌∷◌, map, Option, none, some, length, if◌then◌else◌,
}
use atlas_game_layout.Frame.{Snapshot}
use atlas_game_layout.Simulator as simulator
use atlas_game_layout.Battle.{has, Config, World, Battle, join_session, tell}
use atlas_game_layout.Battle.Frames.{SessionSnapshot, sender_player, hash_bytes, to_pb_input}
use atlas_game_layout.Battle.SyncReply.{FrameInputs, SyncReply, Sizes, clip_sync_reply}

-- `lockstep.ReconnectResponse` and `lockstep.SessionStats`.
pub record ReconnectResponse : Type 0 where
  pub current_frame : ℕ
  pub snapshot : Option SessionSnapshot
  pub missed_inputs : List (List simulator.Input)

pub record SessionStats : Type 0 where
  pub current_frame : ℕ
  pub player_count : ℕ

pub data SyncError : Type 0 where
  without_sender not_in_battle session_failed oversize : SyncError

pub data Answer (A : Type 0) : Type 0 where
  answered : A → Answer A
  denied : SyncError → Answer A

-- The group of the inputs of one frame.
unfoldable pub group_of : List simulator.Input → FrameInputs
unfolding to_pb_input
group_of is = record {
  frame_id = elim is [ [] ↦ 0 | i ∷ rest ↦ i.frame ];
  inputs = map to_pb_input is;
}

-- `snapshotKey`.
unfoldable pub snapshot_key : String → String
snapshot_key battle_id = "snap/" ++ battle_id

unfoldable pub stored_meta : String → Option SessionSnapshot → Option Snapshot
unfolding hash_bytes snapshot_key
stored_meta battle_id none = none
stored_meta battle_id (some s) = some record {
  frame_id = s.frame;
  state_hash = hash_bytes s.hash;
  size_bytes = length s.state;
  storage_key = snapshot_key battle_id;
}

-- The reply of `askReconnect` before it is cut.
unfoldable pub reconnect_reply : String → ReconnectResponse → SyncReply
unfolding group_of stored_meta
reconnect_reply battle_id r = record {
  current_frame = r.current_frame;
  snapshot = stored_meta battle_id r.snapshot;
  missed = map group_of r.missed_inputs;
  next_frame = 0;
  has_more = false;
}

-- `JoinBattleReply`, with what `sessionMeta` sets of `SessionMeta`.
pub record JoinReply : Type 0 where
  pub session_id : String
  pub max_players : ℕ
  pub tick_millis : ℕ
  pub current_frame : ℕ
  pub snapshot : Option Snapshot
  pub payload_version : ℕ

-- `stateName` and `GetStateReply`.
pub data StateName : Type 0 where
  is_settled is_running : StateName

pub record StateReply : Type 0 where
  pub state : StateName
  pub current_frame : ℕ
  pub player_count : ℕ

-- `GetState`.
unfoldable pub get_state : Option SessionStats → Battle → Answer StateReply
get_state none b = denied session_failed
get_state (some s) b = answered record {
  state = if b.settled then is_settled else is_running;
  current_frame = s.current_frame;
  player_count = s.player_count % 2 ^ 32;
}

module _ (session : ℕ → Option ReconnectResponse) where
  -- `askReconnect`.
  unfoldable pub ask_reconnect : Battle → ℕ → Answer SyncReply
  unfolding reconnect_reply
  ask_reconnect b last_seen = elim (session last_seen) [
    | none ↦ denied session_failed
    | some r ↦ answered (reconnect_reply b.battle_id r)
  ]

  -- `SyncFrames`.
  unfoldable pub sync_frames : Sizes → ℕ → Option String → ℕ → Battle → Answer SyncReply
  unfolding sender_player ask_reconnect clip_sync_reply
  sync_frames sizes budget sender last_seen b = elim (sender_player sender) [
    | none ↦ denied without_sender
    | some p ↦
        if has p b.players
        then elim (ask_reconnect b last_seen) [
          | denied e ↦ denied e
          | answered r ↦ elim (clip_sync_reply sizes budget r) [
            | none ↦ denied oversize
            | some out ↦ answered out
          ]
        ]
        else denied not_in_battle
  ]

  -- `JoinBattle`; the version that the registry negotiates is an argument.
  unfoldable pub join_battle :
      Config → World → ℕ → Option String → Battle → Battle × Answer JoinReply
  unfolding sender_player ask_reconnect
  join_battle cfg w version sender b = elim (sender_player sender) [
    | none ↦ (b, denied without_sender)
    | some p ↦
        let joined = tell (join_session p) b in
        if has p b.players
        then if w.delivered (join_session p)
          then (
            joined,
            elim (ask_reconnect joined 0) [
              | denied e ↦ denied e
              | answered r ↦ answered (record {
                session_id = b.battle_id;
                max_players = cfg.max_players % 2 ^ 32;
                tick_millis = cfg.tick_interval / 1000000 % 2 ^ 32;
                current_frame = r.current_frame;
                snapshot = r.snapshot;
                payload_version = version;
              })
            ],
          )
          else (joined, denied session_failed)
        else (b, denied not_in_battle)
  ]

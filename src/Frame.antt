-- ===== src/Frame.antt =====
-- The frame messages that the battle server sends down: `LockstepInput`, `SnapshotMeta` and
-- `LockstepFrame` of the lockstep protocol, `FrameBroadcast` and `FrameBroadcastDelta` of
-- api/battle/v1/battle_service.proto. A `uint64` is its value and an `int64` its bit pattern;
-- the frame code only compares and copies them.
use atlas_game_layout.Common.{
  ℕ, String, Bool, true, List, [], ◌∷◌, Option, none, some, ◌≡◌, ◌↔◌, Bytes, ◌==◌, string_key,
  if◌then◌else◌,
}

-- What the code uses of `timestamppb` and of `proto.Equal` on timestamps.
pub record Timestamps (Time : Type 0) : Type 0 where
  pub equal : Time → Time → Bool
  pub equal_iff : (a b : Time) → (equal a b ≡ true) ↔ (a ≡ b)
  -- `ts.AsTime().UnixNano()`
  pub unix_nano : Time → ℕ
  -- `timestamppb.New(time.Unix(0, nanos))`
  pub from_nano : ℕ → Time

pub record Input : Type 0 where
  pub frame_id : ℕ
  pub player_id : String
  pub payload : Bytes
  pub predicted : Bool
  pub client_send_time : ℕ

pub record Snapshot : Type 0 where
  pub frame_id : ℕ
  pub state_hash : Bytes
  pub size_bytes : ℕ
  pub storage_key : String

pub record Frame (Time : Type 0) : Type 0 where
  pub frame_id : ℕ
  pub inputs : List Input
  pub state_hash : Bytes
  pub server_time : Option Time
  pub snapshot : Option Snapshot

pub record Broadcast (Time : Type 0) : Type 0 where
  pub battle_id : String
  pub frame : Frame Time

-- `FrameDeltaField`.
pub data DeltaField : Type 0 where
  server_time_field inputs_field snapshot_field : DeltaField

pub record Delta : Type 0 where
  pub base_seq : ℕ
  pub seq : ℕ
  pub changed : List DeltaField
  pub server_time_nano : ℕ
  pub set_inputs : List Input
  pub removed_ids : List String
  pub snapshot : Option Snapshot
  pub state_hash : Bytes

-- The first input of a player.
abbrev pub find : String → List Input → Option Input
find q [] = none
find q (i ∷ is) = let rest = find q is in if i.player_id == q then some i else rest

-- ===== src/Delta.antt =====
-- The server's delta encoding, services/battle/internal/stream/delta.go: the sparse difference of
-- two consecutive frames. `range prevBy` may take any order; the list takes one of them.
-- `proto.Equal` on two snapshots compares their four fields.
pub mod Inputs
pub mod RoundTrip
pub mod Sync
pub mod Receive
use atlas_game_layout.Common.{
  is_some, ℕ, String, Bool, true, false, not, ◌&&◌, ◌||◌, List, [], ◌∷◌, ◌++◌, Option, none, some,
  Map, lookup, keep, ◌==◌, nat_key, string_key, bytes_key, if◌then◌else◌,
}
use atlas_game_layout.Frame.{
  Timestamps, Input, Snapshot, Frame, Delta, DeltaField, server_time_field, inputs_field,
  snapshot_field,
}
use atlas_game_layout.Downlink.{index_inputs}

abbrev same_bool : Bool → Bool → Bool
same_bool true b = b
same_bool false b = not b

-- `sameInput`: the frame id is left out.
unfoldable pub same_input : Input → Input → Bool
same_input a b =
    if not (a.player_id == b.player_id)
    then false
    else if not (same_bool a.predicted b.predicted)
    then false
    else if not (a.client_send_time == b.client_send_time)
    then false
    else a.payload == b.payload

unfoldable pub inputs_by_player : List Input → Map String Input
inputs_by_player is = index_inputs is []

abbrev unchanged : Option Input → Input → Bool
unchanged none i = false
unchanged (some old) i = same_input old i

unfoldable pub changed_inputs : Map String Input → List Input → List Input
changed_inputs prev_by cur = keep (λ i. not (unchanged (lookup i.player_id prev_by) i)) cur

unfoldable pub removed_players : Map String Input → Map String Input → List String
removed_players [] cur_by = []
removed_players ((id, _) ∷ m) cur_by =
    let rest = removed_players m cur_by in if is_some (lookup id cur_by) then rest else id ∷ rest

-- The getters of a nil snapshot give the zero fields.
abbrev pub read_snapshot : Option Snapshot → Snapshot
read_snapshot none = record { frame_id = 0; state_hash = []; size_bytes = 0; storage_key = "" }
read_snapshot (some s) = s

abbrev same_fields : Snapshot → Snapshot → Bool
same_fields a b =
    (a.frame_id == b.frame_id)
    && (a.state_hash == b.state_hash)
    && (a.size_bytes == b.size_bytes)
    && (a.storage_key == b.storage_key)

unfoldable pub same_snapshot : Option Snapshot → Option Snapshot → Bool
same_snapshot (some a) (some b) = same_fields a b
same_snapshot a b = same_fields (read_snapshot a) (read_snapshot b)

abbrev is_empty {ℓ} : {A : Type ℓ} → List A → Bool
is_empty [] = true
is_empty (x ∷ xs) = false

module _ {Time : Type 0} ⦃ts : Timestamps Time⦄ where
  unfoldable pub same_server_time : Option Time → Option Time → Bool
  same_server_time none none = true
  same_server_time (some a) (some b) = ts.equal a b
  same_server_time _ _ = false

  -- The field is set only where the time changed; elsewhere it stays at 0.
  unfoldable pub delta_nano : Option Time → Option Time → ℕ
  delta_nano prev none = 0
  delta_nano prev (some t) = if same_server_time prev (some t) then 0 else ts.unix_nano t

  -- `diffFrames`.
  unfoldable pub diff : Frame Time → Frame Time → Delta
  unfolding inputs_by_player changed_inputs removed_players delta_nano
  diff prev cur =
      let prev_by = inputs_by_player prev.inputs in
      let cur_by = inputs_by_player cur.inputs in
      let set = changed_inputs prev_by cur.inputs in
      let removed = removed_players prev_by cur_by in
      let same_time = same_server_time prev.server_time cur.server_time in
      let same_snap = same_snapshot prev.snapshot cur.snapshot in
      record {
        base_seq = prev.frame_id;
        seq = cur.frame_id;
        changed =
            (if same_time then [] else server_time_field ∷ [])
            ++ ((if is_empty set && is_empty removed then [] else inputs_field ∷ [])
                ++ (if same_snap then [] else snapshot_field ∷ []));
        server_time_nano = delta_nano prev.server_time cur.server_time;
        set_inputs = set;
        removed_ids = removed;
        snapshot = if same_snap then none else cur.snapshot;
        state_hash = cur.state_hash;
      }

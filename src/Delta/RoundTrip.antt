-- ===== src/Delta/RoundTrip.antt =====
-- `diffFrames` of the server and `Merge` of the client, one after the other.
use atlas_game_layout.Common.{
  String, Bool, true, not, [], ◌∷◌, ◌++◌, Option, none, some, ◌≡◌, refl, nat_key, bytes_key,
  string_key, str_iff, bytes_equal_iff, if◌then◌else◌, arith,
}
use atlas_game_layout.Frame.{
  Timestamps, Snapshot, Frame, Broadcast, server_time_field, inputs_field, snapshot_field, find,
}
use atlas_game_layout.Downlink.{has_field, merge_snapshot, merge}
use atlas_game_layout.Downlink.Merge.{Distinct}
use atlas_game_layout.Downlink.Counts.{inputs_of}
use atlas_game_layout.Delta.{
  read_snapshot, same_snapshot, same_server_time, delta_nano, diff, inputs_by_player,
}
use atlas_game_layout.Delta.Inputs.{
  inputs_of-merge-changed, InFrame, find-merge-changed, inputs_of-merge-changed,
}

-- Two frames that a client cannot tell apart by player, time, hash and snapshot getters: each player
-- has the same input, as often in one as in the other, and the order of the inputs is left out.
pub record Same {Time : Type 0} (f g : Frame Time) : Type 0 where
  pub same_id : f.frame_id ≡ g.frame_id
  pub same_inputs : (q : String) → find q f.inputs ≡ find q g.inputs
  pub same_count : (q : String) → inputs_of q f.inputs ≡ inputs_of q g.inputs
  pub same_hash : f.state_hash ≡ g.state_hash
  pub same_time : f.server_time ≡ g.server_time
  pub same_snapshot : read_snapshot f.snapshot ≡ read_snapshot g.snapshot

-- A frame as the session emits it: one input for each player, under the frame's id.
pub record IsFrame {Time : Type 0} (f : Frame Time) : Type 0 where
  pub distinct : Distinct f.inputs
  pub own_ids : InFrame f.frame_id f.inputs

-- What the step from `prev` to `cur` needs of the server times: the clock is not taken away, and
-- the new time is one that its nanoseconds determine.
module _ {Time : Type 0} ⦃ts : Timestamps Time⦄ where
  pub record TimesCarry (prev cur : Option Time) : Type 0 where
    pub stays : cur ≡ none → prev ≡ none
    pub exact : (t : Time) → cur ≡ some t → ts.from_nano (ts.unix_nano t) ≡ t

same_snapshot→eq :
    (a b : Option Snapshot) → same_snapshot a b ≡ true → read_snapshot a ≡ read_snapshot b
unfolding same_snapshot
same_snapshot→eq none none h = refl
same_snapshot→eq none (some b) h =
    ground (arith, bytes_equal_iff [] b.state_hash, str_iff "" b.storage_key)
same_snapshot→eq (some a) none h =
    ground (arith, bytes_equal_iff a.state_hash [], str_iff a.storage_key "")
same_snapshot→eq (some a) (some b) h =
    ground (arith, bytes_equal_iff a.state_hash b.state_hash, str_iff a.storage_key b.storage_key)

-- The three optional fields of `changed`, read back.
has_field-changed :
    (a b c : Bool)
    → let changed =
        (if a then [] else server_time_field ∷ [])
        ++ ((if b then [] else inputs_field ∷ []) ++ (if c then [] else snapshot_field ∷ [])) in
      (has_field changed server_time_field ≡ not a) × (has_field changed snapshot_field ≡ not c)
unfolding has_field
has_field-changed a b c = ground arith

snapshot-merge :
    (base prev cur : Option Snapshot)
    → read_snapshot base ≡ read_snapshot prev
    → read_snapshot (
        if not (same_snapshot prev cur)
        then (if same_snapshot prev cur then none else cur)
        else base)
      ≡ read_snapshot cur
snapshot-merge base prev cur h = ground (arith, same_snapshot→eq prev cur)

module _ {Time : Type 0} ⦃ts : Timestamps Time⦄ where
  time-merge :
      (prev cur : Option Time)
      → TimesCarry prev cur
      → (if not (same_server_time prev cur)
          then some (ts.from_nano (delta_nano prev cur))
          else prev)
        ≡ cur
  unfolding same_server_time delta_nano
  time-merge none none h = refl
  time-merge none (some b) h = ground (arith, h.exact b)
  time-merge (some a) none h = ground (arith, h.stays)
  time-merge (some a) (some b) h = ground (arith, h.exact b, ts.equal_iff a b)

  -- For frames as a session emits them, one input for each player under the frame's id, and a
  -- server time that is not taken away and that its nanoseconds determine: a client whose base
  -- shows the previous frame, and that merges the delta of the previous and the new frame, then
  -- shows the new frame, under its own battle id: each player's input as it is there and as often,
  -- in any order, and the id, the hash, the time and the snapshot.
  pub merge-diff :
      (base : Broadcast Time) (prev cur : Frame Time)
      → Same base.frame prev
      → IsFrame prev
      → IsFrame cur
      → TimesCarry prev.server_time cur.server_time
      → Same (merge base (diff prev cur)).frame cur
        × ((merge base (diff prev cur)).battle_id ≡ base.battle_id)
  unfolding merge diff merge_snapshot inputs_by_player
  merge-diff base prev cur s p c t = (
    record {
      same_id = refl;
      same_inputs = λ q.
          find-merge-changed q base.frame.inputs prev.inputs cur.inputs (diff prev cur)
            (s.same_inputs q) p.distinct c.distinct c.own_ids refl refl;
      same_count = λ q.
          inputs_of-merge-changed q base.frame.inputs prev.inputs cur.inputs (diff prev cur)
            (s.same_inputs q) (s.same_count q) p.distinct c.distinct refl refl;
      same_hash = refl;
      same_time =
          rw ((has_field-changed same_time _ same_snap).0, s.same_time)
            (time-merge prev.server_time cur.server_time t);
      same_snapshot =
          rw (has_field-changed same_time _ same_snap).1
            (snapshot-merge base.frame.snapshot prev.snapshot cur.snapshot s.same_snapshot);
    },
    refl,
  )
    where
      same_time : Bool
      same_time = same_server_time prev.server_time cur.server_time

      same_snap : Bool
      same_snap = same_snapshot prev.snapshot cur.snapshot

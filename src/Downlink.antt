-- ===== src/Downlink.antt =====
-- The client's side of the frame downlink, lib/downlink: `Merge` (merge.go) and `Decoder`
-- (session.go). A nil message reads as the zero message, so `full` starts as that. A set of ids
-- is a list that is scanned; the decoders of the payload bytes are a parameter.
pub mod Merge
pub mod Counts
use atlas_game_layout.Common.{
  is_some, ℕ, ◌+◌, ◌%◌, ◌^◌, String, Bool, true, false, not, ◌||◌, List, [], ◌∷◌, ◌++◌, map, Option,
  none, some, Bytes, Map, lookup, insert, delete, keep, member, ◌==◌, nat_key, string_key, leb,
  if◌then◌else◌,
}
use atlas_game_layout.Frame.{
  Timestamps, Input, Snapshot, Broadcast, Delta, DeltaField, server_time_field, inputs_field,
  snapshot_field,
}

abbrev same_field : DeltaField → DeltaField → Bool
same_field server_time_field server_time_field = true
same_field inputs_field inputs_field = true
same_field snapshot_field snapshot_field = true
same_field _ _ = false

unfoldable pub has_field : List DeltaField → DeltaField → Bool
has_field [] f = false
has_field (got ∷ rest) f = let later = has_field rest f in if same_field got f then true else later

-- `rewriteFrame`: `proto.Clone` copies, and a value is its own copy.
abbrev pub rewrite_frame : ℕ → Input → Input
rewrite_frame seq i = record i { frame_id = seq }

-- `set[in.GetPlayerId()] = in` over the list: the last input of a player stays.
unfoldable pub index_inputs : List Input → Map String Input → Map String Input
index_inputs [] m = m
index_inputs (i ∷ is) m = index_inputs is (insert i.player_id i m)

abbrev push_out : Input → List Input × Map String Input → List Input × Map String Input
push_out i (out, set) = (i ∷ out, set)

-- The first loop of `mergeInputs`: the output, and what is left of `set`.
unfoldable pub merge_base :
    List String → ℕ → Map String Input → List Input → List Input × Map String Input
merge_base removed seq set [] = ([], set)
merge_base removed seq set (i ∷ rest) = elim (member i.player_id removed) [
  | true ↦ merge_base removed seq set rest
  | false ↦ elim (lookup i.player_id set) [
    | none ↦ push_out (rewrite_frame seq i) (merge_base removed seq set rest)
    | some r ↦ push_out (rewrite_frame seq r) (merge_base removed seq (delete i.player_id set) rest)
  ]
]

-- The second loop: what `set` still holds is appended in the order of `set_inputs`.
unfoldable pub merge_new : ℕ → Map String Input → List Input → List Input
merge_new seq set is = map (rewrite_frame seq) (keep (λ i. is_some (lookup i.player_id set)) is)

unfoldable pub merge_inputs : List Input → Delta → List Input
merge_inputs base d =
    let (out, left) = merge_base d.removed_ids d.seq (index_inputs d.set_inputs []) base in
    out ++ merge_new d.seq left d.set_inputs

unfoldable pub merge_snapshot : Option Snapshot → Delta → Option Snapshot
merge_snapshot base d = if has_field d.changed snapshot_field then d.snapshot else base

module _ {Time : Type 0} ⦃ts : Timestamps Time⦄ where
  unfoldable pub merge : Broadcast Time → Delta → Broadcast Time
  merge base d = record {
    battle_id = base.battle_id;
    frame = record {
      frame_id = d.seq;
      inputs = merge_inputs base.frame.inputs d;
      state_hash = d.state_hash;
      server_time =
          if has_field d.changed server_time_field
          then some (ts.from_nano d.server_time_nano)
          else base.frame.server_time;
      snapshot = merge_snapshot base.frame.snapshot d;
    };
  }

-- `requester` says whether a `Requester` was given; `sent` logs its calls, the last one first.
pub record Decoder (Time : Type 0) : Type 0 where
  pub requester : Bool
  pub full : Broadcast Time
  pub last_seq : ℕ
  pub has_base : Bool
  pub pending : Bool
  pub requests : ℕ
  pub drops : ℕ
  pub sent : List ℕ

pub data Applied (Time : Type 0) : Type 0 where
  delivered : Broadcast Time → Applied Time
  dropped : Applied Time
  failed : Applied Time

-- `protojson.Unmarshal` and `proto.Unmarshal` at the two message types.
pub record Codec (Time : Type 0) : Type 0 where
  pub json_full : Bytes → Option (Broadcast Time)
  pub proto_full : Bytes → Option (Broadcast Time)
  pub proto_delta : Bytes → Option Delta

abbrev pub version_delta : ℕ
version_delta = 3

module _ {Time : Type 0} where
  unfoldable pub new_decoder : Bool → Decoder Time
  new_decoder requester = record {
    requester = requester;
    full = record {
      battle_id = "";
      frame = record {
        frame_id = 0;
        inputs = [];
        state_hash = [];
        server_time = none;
        snapshot = none;
      };
    };
    last_seq = 0;
    has_base = false;
    pending = false;
    requests = 0;
    drops = 0;
    sent = [];
  }

  -- The error of the request is ignored.
  unfoldable pub request_keyframe : Decoder Time → Decoder Time
  request_keyframe d = if d.pending then d else record d {
    pending = true;
    requests = d.requests + 1;
    sent = if d.requester then d.last_seq ∷ d.sent else d.sent;
  }

  unfoldable pub apply_full : Decoder Time → Option (Broadcast Time) → Decoder Time × Applied Time
  apply_full d none = (d, failed)
  apply_full d (some bc) = (
    record d { full = bc; last_seq = bc.frame.frame_id; has_base = true; pending = false },
    delivered bc,
  )

module _ {Time : Type 0} ⦃ts : Timestamps Time⦄ where
  -- `d.lastSeq+1` wraps at 2^64.
  unfoldable pub apply_delta : Decoder Time → Option Delta → Decoder Time × Applied Time
  apply_delta d none = (d, failed)
  apply_delta d (some x) =
      if not d.has_base
      then (request_keyframe d, dropped)
      else if leb x.seq d.last_seq
      then (d, dropped)
      else if not (x.seq == (d.last_seq + 1) % 2 ^ 64) || not (x.base_seq == d.last_seq)
      then (request_keyframe (record d { drops = d.drops + 1 }), dropped)
      else let full = merge d.full x in
        (record d { full = full; last_seq = x.seq; pending = false }, delivered full)

  -- `Apply`.
  unfoldable pub apply : Codec Time → Decoder Time → Bytes → ℕ → Decoder Time × Applied Time
  unfolding apply_full apply_delta
  apply codec d payload ver =
      if ver == 1
      then apply_full d (codec.json_full payload)
      else if ver == 2
      then apply_full d (codec.proto_full payload)
      else if ver == version_delta
      then apply_delta d (codec.proto_delta payload)
      else (d, failed)

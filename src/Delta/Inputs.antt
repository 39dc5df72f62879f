-- ===== src/Delta/Inputs.antt =====
-- What `diffFrames` says of each player, and the merge of it.
use atlas_game_layout.Common.{
  is_some, ℕ, String, true, not, ◌&&◌, List, [], ◌∷◌, Option, none, some, ◌≡◌, refl, inl, inr, Map,
  Option-cases, lookup, member, string_key, str_iff, bytes_equal_iff, if◌then◌else◌, arith, All,
}
use atlas_game_layout.Frame.{Input, Delta, find}
use atlas_game_layout.Downlink.{index_inputs, merge_inputs}
use atlas_game_layout.Downlink.Merge.{
  Distinct, with_frame, lookup-index_inputs-Distinct, find-merge_inputs,
}
use atlas_game_layout.Downlink.Counts.{inputs_of, inputs_of-merge_inputs, inputs_of-Distinct}
use atlas_game_layout.Delta.{
  same_input, unchanged, inputs_by_player, changed_inputs, removed_players,
}

abbrev pub InFrame : ℕ → List Input → Type 0
InFrame n = All (λ i. i.frame_id ≡ n)

-- Two inputs that the server takes for the same differ in the frame id at most.
unchanged→eq :
    (o : Option Input) (b : Input) → unchanged o b ≡ true → with_frame b.frame_id o ≡ some b
unfolding same_input
unchanged→eq none b h = cc
unchanged→eq (some a) b h =
    ground (arith, str_iff a.player_id b.player_id, bytes_equal_iff a.payload b.payload)

find-InFrame :
    (n : ℕ) (q : String) (is : List Input) (i : Input)
    → InFrame n is
    → find q is ≡ some i
    → i.frame_id ≡ n
find-InFrame n q [] i h e = ground arith
find-InFrame n q (j ∷ is) i h e = ground (arith, find-InFrame n q is i h.1)

find-changed_inputs :
    (q : String) (prev_by : Map String Input) (cur : List Input)
    → Distinct cur
    → find q (changed_inputs prev_by cur) ≡ elim (find q cur) [
      | none ↦ none
      | some i ↦ if unchanged (lookup q prev_by) i then none else some i
    ]
unfolding changed_inputs
find-changed_inputs q prev_by [] d = refl
find-changed_inputs q prev_by (i ∷ cur) d =
    ground (arith, str_iff i.player_id q, find-changed_inputs q prev_by cur d.1)

changed_inputs-Distinct :
    (prev_by : Map String Input) (cur : List Input)
    → Distinct cur
    → Distinct (changed_inputs prev_by cur)
unfolding changed_inputs
changed_inputs-Distinct prev_by [] d = tt
changed_inputs-Distinct prev_by (i ∷ cur) d = ground (
  arith,
  changed_inputs-Distinct prev_by cur d.1,
  find-changed_inputs i.player_id prev_by cur d.1,
)

member-removed_players :
    (q : String) (prev_by cur_by : Map String Input)
    → member q (removed_players prev_by cur_by)
      ≡ is_some (lookup q prev_by) && not (is_some (lookup q cur_by))
unfolding removed_players
member-removed_players q [] cur_by = refl
member-removed_players q ((id, i) ∷ m) cur_by =
    ground (arith, str_iff id q, member-removed_players q m cur_by)

-- One player's input after the merge is that of the new frame.
pub find-merge-changed :
    (q : String) (base prev cur : List Input) (d : Delta)
    → find q base ≡ find q prev
    → Distinct prev
    → Distinct cur
    → InFrame d.seq cur
    → d.set_inputs ≡ changed_inputs (inputs_by_player prev) cur
    → d.removed_ids ≡ removed_players (inputs_by_player prev) (inputs_by_player cur)
    → find q (merge_inputs base d) ≡ find q cur
unfolding inputs_by_player
find-merge-changed q base prev cur d same dp dc fc set removed =
    let distinct = changed_inputs-Distinct (index_inputs prev []) cur dc in
    elim (Option-cases (find q cur)) [
      | inl gone ↦ ground (
        arith,
        find-merge_inputs q base d (rw set distinct),
        find-changed_inputs q (index_inputs prev []) cur dc,
        member-removed_players q (index_inputs prev []) (index_inputs cur []),
        lookup-index_inputs-Distinct q prev dp,
        lookup-index_inputs-Distinct q cur dc,
      )
      | inr (i, e) ↦
          let own = find-InFrame d.seq q cur i fc e in
          ground (
            arith,
            find-merge_inputs q base d (rw set distinct),
            find-changed_inputs q (index_inputs prev []) cur dc,
            member-removed_players q (index_inputs prev []) (index_inputs cur []),
            lookup-index_inputs-Distinct q prev dp,
            lookup-index_inputs-Distinct q cur dc,
            unchanged→eq (lookup q (index_inputs prev [])) i,
          )
    ]

-- The delta adds a player only where the base has none, and it removes one only whom it does not
-- set: each player has one input after the merge, as in the new frame.
pub inputs_of-merge-changed :
    (q : String) (base prev cur : List Input) (d : Delta)
    → find q base ≡ find q prev
    → inputs_of q base ≡ inputs_of q prev
    → Distinct prev
    → Distinct cur
    → d.set_inputs ≡ changed_inputs (inputs_by_player prev) cur
    → d.removed_ids ≡ removed_players (inputs_by_player prev) (inputs_by_player cur)
    → inputs_of q (merge_inputs base d) ≡ inputs_of q cur
unfolding inputs_by_player
inputs_of-merge-changed q base prev cur d same as_many dp dc set removed =
    let distinct = changed_inputs-Distinct (index_inputs prev []) cur dc in
    ground (
      arith,
      inputs_of-merge_inputs q base d (rw set distinct),
      inputs_of-Distinct q prev dp,
      inputs_of-Distinct q cur dc,
      find-changed_inputs q (index_inputs prev []) cur dc,
      member-removed_players q (index_inputs prev []) (index_inputs cur []),
      lookup-index_inputs-Distinct q prev dp,
      lookup-index_inputs-Distinct q cur dc,
      Option-cases (find q prev),
      Option-cases (find q cur),
    )

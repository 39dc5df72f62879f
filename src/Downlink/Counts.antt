-- ===== src/Downlink/Counts.antt =====
-- How many inputs of each player `mergeInputs` leaves.
use atlas_game_layout.Common.{
  is_some, ℕ, ◌+◌, String, List, [], ◌∷◌, ◌++◌, none, ◌≡◌, refl, Map, lookup, delete, member, ◌==◌,
  string_key, str_iff, if◌then◌else◌, arith, Option-cases, inl, inr,
}
use atlas_game_layout.Frame.{Input, Delta, find}
use atlas_game_layout.Downlink.{index_inputs, merge_base, merge_new, merge_inputs}
use atlas_game_layout.Downlink.Merge.{
  Distinct, Keyed, delete-Keyed, index_inputs-Keyed, lookup-merge_base,
  lookup-index_inputs-Distinct,
}

-- The number of a player's inputs.
abbrev pub inputs_of : String → List Input → ℕ
inputs_of q [] = 0
inputs_of q (i ∷ is) = let n = inputs_of q is in if i.player_id == q then 1 + n else n

inputs_of-append :
    (q : String) (xs ys : List Input) → inputs_of q (xs ++ ys) ≡ inputs_of q xs + inputs_of q ys
inputs_of-append q [] ys = omega arith
inputs_of-append q (x ∷ xs) ys = ground (arith, inputs_of-append q xs ys)

inputs_of-absent : (q : String) (is : List Input) → find q is ≡ none → inputs_of q is ≡ 0
inputs_of-absent q [] h = refl
inputs_of-absent q (i ∷ is) h = ground (arith, inputs_of-absent q is)

pub inputs_of-Distinct :
    (q : String) (is : List Input)
    → Distinct is
    → inputs_of q is ≡ (if is_some (find q is) then 1 else 0)
inputs_of-Distinct q [] d = refl
inputs_of-Distinct q (i ∷ is) d =
    ground (arith, str_iff i.player_id q, inputs_of-Distinct q is d.1, inputs_of-absent q is)

inputs_of-merge_base :
    (q : String) (removed : List String) (seq : ℕ) (set : Map String Input) (base : List Input)
    → Keyed set
    → inputs_of q (merge_base removed seq set base).0
      ≡ (if member q removed then 0 else inputs_of q base)
unfolding merge_base
inputs_of-merge_base q removed seq set [] k = ground arith
inputs_of-merge_base q removed seq set (i ∷ rest) k = elim (Option-cases (lookup i.player_id set)) [
  | inl e ↦ ground (arith, str_iff i.player_id q, inputs_of-merge_base q removed seq set rest k)
  | inr (r, e) ↦
      let own = k i.player_id r e in
      ground (
        arith,
        str_iff i.player_id q,
        inputs_of-merge_base q removed seq set rest k,
        inputs_of-merge_base q removed seq (delete i.player_id set) rest
            (delete-Keyed i.player_id set k),
      )
]

inputs_of-merge_new :
    (q : String) (seq : ℕ) (left : Map String Input) (is : List Input)
    → inputs_of q (merge_new seq left is) ≡ (if is_some (lookup q left) then inputs_of q is else 0)
unfolding merge_new
inputs_of-merge_new q seq left [] = ground arith
inputs_of-merge_new q seq left (i ∷ is) =
    ground (arith, str_iff i.player_id q, inputs_of-merge_new q seq left is)

-- A player's inputs of the base stay as many, none where he is removed; one that the delta sets is
-- added once where the base leaves him none.
pub inputs_of-merge_inputs :
    (q : String) (base : List Input) (d : Delta)
    → Distinct d.set_inputs
    → inputs_of q (merge_inputs base d)
      ≡ (if member q d.removed_ids then 0 else inputs_of q base)
        + (if member q d.removed_ids
            then (if is_some (find q d.set_inputs) then 1 else 0)
            else if is_some (find q base)
            then 0
            else if is_some (find q d.set_inputs)
            then 1
            else 0)
unfolding merge_inputs
inputs_of-merge_inputs q base d distinct =
    let set = index_inputs d.set_inputs [] in
    let (out, left) = merge_base d.removed_ids d.seq set base in
    ground (
      arith,
      inputs_of-append q out (merge_new d.seq left d.set_inputs),
      inputs_of-merge_new q d.seq left d.set_inputs,
      inputs_of-merge_base q d.removed_ids d.seq set base
          (index_inputs-Keyed d.set_inputs distinct),
      inputs_of-Distinct q d.set_inputs distinct,
      lookup-merge_base q d.removed_ids d.seq set base,
      lookup-index_inputs-Distinct q d.set_inputs distinct,
    )

-- ===== src/Downlink/Merge.antt =====
-- What `mergeInputs` leaves for each player.
use atlas_game_layout.Common.{
  is_some, ℕ, String, not, ◌&&◌, List, [], ◌∷◌, ◌++◌, Option, none, some, ◌≡◌, refl, Map, lookup,
  insert, delete, lookup-insert, lookup-delete, member, ◌==◌, string_key, str_iff, if◌then◌else◌,
  arith, Option-cases, inl, inr,
}
use atlas_game_layout.Frame.{Input, Delta, find}
use atlas_game_layout.Downlink.{rewrite_frame, index_inputs, merge_base, merge_new, merge_inputs}

-- No player has two inputs.
abbrev pub Distinct : List Input → Type 0
Distinct [] = Unit
Distinct (i ∷ is) = (find i.player_id is ≡ none) × Distinct is

-- Each entry of the index stands under its own player.
abbrev pub Keyed : Map String Input → Type 0
Keyed m = (q : String) (r : Input) → lookup q m ≡ some r → r.player_id ≡ q

abbrev pub with_frame : ℕ → Option Input → Option Input
with_frame seq none = none
with_frame seq (some i) = some (rewrite_frame seq i)

abbrev pub or_else : Option Input → Option Input → Option Input
or_else none b = b
or_else (some a) b = some a

pub find-player_id :
    (q : String) (is : List Input) (i : Input) → find q is ≡ some i → i.player_id ≡ q
find-player_id q [] i h = ground arith
find-player_id q (j ∷ is) i h = ground (arith, str_iff j.player_id q, find-player_id q is i)

find-append :
    (q : String) (xs ys : List Input) → find q (xs ++ ys) ≡ or_else (find q xs) (find q ys)
find-append q [] ys = refl
find-append q (x ∷ xs) ys = ground (arith, find-append q xs ys)

pub delete-Keyed : (k : String) (m : Map String Input) → Keyed m → Keyed (delete k m)
delete-Keyed k m h q r e = h q r (ground (arith, lookup-delete k q m))

find-merge_base :
    (q : String) (removed : List String) (seq : ℕ) (set : Map String Input) (base : List Input)
    → Keyed set
    → find q (merge_base removed seq set base).0 ≡ (
        if member q removed then none else elim (find q base) [
          | none ↦ none
          | some i ↦ with_frame seq (or_else (lookup q set) (some i))
        ])
unfolding merge_base
find-merge_base q removed seq set [] k = ground arith
find-merge_base q removed seq set (i ∷ rest) k = elim (Option-cases (lookup i.player_id set)) [
  | inl e ↦ ground (arith, str_iff i.player_id q, find-merge_base q removed seq set rest k)
  | inr (r, e) ↦
      let own = k i.player_id r e in
      ground (
        arith,
        str_iff i.player_id q,
        find-merge_base q removed seq set rest k,
        find-merge_base q removed seq (delete i.player_id set) rest
            (delete-Keyed i.player_id set k),
        lookup-delete i.player_id q set,
      )
]

pub lookup-merge_base :
    (q : String) (removed : List String) (seq : ℕ) (set : Map String Input) (base : List Input)
    → lookup q (merge_base removed seq set base).1
      ≡ (if not (member q removed) && is_some (find q base) then none else lookup q set)
unfolding merge_base
lookup-merge_base q removed seq set [] = ground arith
lookup-merge_base q removed seq set (i ∷ rest) = ground (
  arith,
  str_iff i.player_id q,
  lookup-merge_base q removed seq set rest,
  lookup-merge_base q removed seq (delete i.player_id set) rest,
  lookup-delete i.player_id q set,
)

-- The last input of a player: what indexing the list keeps.
abbrev find_last : String → List Input → Option Input
find_last q [] = none
find_last q (i ∷ is) = or_else (find_last q is) (if i.player_id == q then some i else none)

lookup-index_inputs :
    (q : String) (is : List Input) (m : Map String Input)
    → lookup q (index_inputs is m) ≡ or_else (find_last q is) (lookup q m)
unfolding index_inputs
lookup-index_inputs q [] m = refl
lookup-index_inputs q (i ∷ is) m =
    ground
      (arith, lookup-index_inputs q is (insert i.player_id i m), lookup-insert i.player_id q i m)

find_last-find : (q : String) (is : List Input) → Distinct is → find_last q is ≡ find q is
find_last-find q [] d = refl
find_last-find q (i ∷ is) d = ground (arith, str_iff i.player_id q, find_last-find q is d.1)

-- Indexing a list without doubles keeps the player's only input.
pub lookup-index_inputs-Distinct :
    (q : String) (is : List Input) → Distinct is → lookup q (index_inputs is []) ≡ find q is
lookup-index_inputs-Distinct q is d =
    ground (arith, lookup-index_inputs q is [], find_last-find q is d)

pub index_inputs-Keyed : (is : List Input) → Distinct is → Keyed (index_inputs is [])
index_inputs-Keyed is distinct k r e =
    find-player_id k is r (ground (arith, lookup-index_inputs-Distinct k is distinct))

find-merge_new :
    (q : String) (seq : ℕ) (left : Map String Input) (is : List Input)
    → find q (merge_new seq left is)
      ≡ (if is_some (lookup q left) then with_frame seq (find q is) else none)
unfolding merge_new
find-merge_new q seq left [] = ground arith
find-merge_new q seq left (i ∷ is) =
    ground (arith, str_iff i.player_id q, find-merge_new q seq left is)

-- Merging a delta that sets no player's input twice reads a player's input from `set_inputs`, else
-- drops it if the player is removed, else keeps that of the base; every input gets the new frame
-- id.
pub find-merge_inputs :
    (q : String) (base : List Input) (d : Delta)
    → Distinct d.set_inputs
    → find q (merge_inputs base d)
      ≡ or_else
          (with_frame d.seq (find q d.set_inputs))
          (if member q d.removed_ids then none else with_frame d.seq (find q base))
unfolding merge_inputs
find-merge_inputs q base d distinct =
    let set = index_inputs d.set_inputs [] in
    let (out, left) = merge_base d.removed_ids d.seq set base in
    ground (
      arith,
      find-append q out (merge_new d.seq left d.set_inputs),
      find-merge_new q d.seq left d.set_inputs,
      find-merge_base q d.removed_ids d.seq set base (index_inputs-Keyed d.set_inputs distinct),
      lookup-merge_base q d.removed_ids d.seq set base,
      lookup-index_inputs-Distinct q d.set_inputs distinct,
    )

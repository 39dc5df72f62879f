-- ===== src/Migration/Least.antt =====
-- The node that `Select` of plan.go picks.
use atlas_game_layout.Common.{
  All-keep, member-keep, IsLeast, length, ◌<◌, String, true, false, List, [], ◌∷◌, Option, none,
  some, ◌≡◌, ◌≢◌, ◌⊎◌, ◌↔◌, refl, keep, first, member, sort, string_before, All, sort-IsLeast,
  string_order, nat_order, nat_key, string_key, str_iff, arith, Bool-cases, inl, inr,
}
use atlas_game_layout.Migration.Picker.{
  Node, less, node_key, node_order, is_candidate, id_of, select,
}

-- A node that may be picked in place of `exclude`.
abbrev pub IsFree : String → Node → Type 0
IsFree exclude n = (n.id ≢ exclude) × (n.id ≢ "")

-- Among the nodes that may be picked, the one under this name has the least load, and of those with
-- its load the least name; none is picked where there are none.
abbrev pub IsBest : List Node → String → Option String → Type 0
IsBest nodes exclude none = All (λ n. (n.id ≡ exclude) ⊎ (n.id ≡ "")) nodes
IsBest nodes exclude (some id) =
    (n : Node) × (member n nodes ≡ true)
    × (n.id ≡ id)
    × (n.id ≢ exclude)
    × (n.id ≢ "")
    × All
        (λ m.
          ((m.id ≢ exclude) × (m.id ≢ ""))
          → (n.proc_count < m.proc_count)
            ⊎ ((n.proc_count ≡ m.proc_count) × (string_before m.id n.id ≡ false)))
        nodes

candidate_iff : (exclude : String) (n : Node) → (is_candidate exclude n ≡ true) ↔ IsFree exclude n
candidate_iff exclude n = ground (arith, str_iff n.id exclude, str_iff n.id "")

keep-none :
    (exclude : String) (nodes : List Node)
    → length (keep (is_candidate exclude) nodes) ≡ 0
    → All (λ n. (n.id ≡ exclude) ⊎ (n.id ≡ "")) nodes
keep-none exclude [] h = tt
keep-none exclude (n ∷ nodes) h = elim (Bool-cases (is_candidate exclude n)) [
  | inl t ↦ absurd (ground (arith, t))
  | inr f ↦ (
    ground (arith, f, str_iff n.id exclude, str_iff n.id ""),
    keep-none exclude nodes (ground (arith, f)),
  )
]

All-weaken :
    (P Q : Node → Type 0) (nodes : List Node) → ((n : Node) → P n → Q n) → All P nodes → All Q nodes
All-weaken P Q [] f h = tt
All-weaken P Q (n ∷ nodes) f h = (f n h.0, All-weaken P Q nodes f h.1)

least-IsBest :
    (nodes : List Node) (exclude : String) (o : Option Node)
    → IsLeast (keep (is_candidate exclude) nodes) o
    → IsBest nodes exclude (id_of o)
unfolding less
least-IsBest nodes exclude none h = keep-none exclude nodes h
least-IsBest nodes exclude (some n) h =
    let (there, free) = member-keep (is_candidate exclude) n nodes h.0 in
    let named = (candidate_iff exclude n).0 free in
    (
      n,
      there,
      refl,
      named.0,
      named.1,
      All-weaken _ _ nodes (λ m q f. ground (arith, q ((candidate_iff exclude m).1 f)))
          (All-keep (is_candidate exclude) (λ m. less m n ≡ false) nodes h.1),
    )

-- `Select` picks, of the nodes with a name that is not the excluded one, one of the least load, and
-- of these the one of the least name; it fails where there is none. The order of the list plays no
-- part.
pub select-IsBest :
    (nodes : List Node) (exclude : String) → IsBest nodes exclude (select nodes exclude)
unfolding select
select-IsBest nodes exclude =
    least-IsBest nodes exclude (first (sort (keep (is_candidate exclude) nodes)))
      (sort-IsLeast (keep (is_candidate exclude) nodes))

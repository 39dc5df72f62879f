-- ===== src/Placement/Targets.antt =====
-- The target of a match: `Pin` and `Retarget` of placement.go, with the filter of target.go.
use atlas_game_layout.Common.{
  subst, ℕ, zero, suc, ◌+◌, ◌%◌, ◌≤◌, ◌<◌, String, true, false, List, [], ◌∷◌, some, ◌≡◌, ◌≢◌, ◌⊎◌,
  inl, inr, refl, ap, ◌∙◌, sym, length, ltb, member, Distinct, ◌==◌, nat_key, string_key, str_iff,
  if_elim, arith, Bool-cases, ==_ne,
}
use atlas_game_layout.Placement.Candidates.{target_filter, only_at, Node}
use atlas_game_layout.Placement.Plans.{
  Planner, next, placed, pin, get_elem?, address_of, index_from, place_except, retarget,
}
use native.Mathlib.Nat.{mod-lt, mod-eq_of_lt, mod_self, mod-lt}

abbrev pub addresses : List Node → List String
addresses [] = []
addresses (n ∷ nodes) = n.node_address ∷ addresses nodes

abbrev address_at : List Node → ℕ → String
address_at nodes i = address_of (get_elem? nodes i)

member_at :
    (nodes : List Node) (i : ℕ)
    → i < length nodes
    → member (address_at nodes i) (addresses nodes) ≡ true
member_at [] i lt = absurd (omega (arith, lt))
member_at (n ∷ nodes) zero lt = ground (arith, str_iff n.node_address n.node_address)
member_at (n ∷ nodes) (suc i) lt = ground (arith, member_at nodes i (omega (arith, lt)))

address_at-eq :
    (nodes : List Node) (i k : ℕ)
    → Distinct (addresses nodes)
    → i < length nodes
    → k < length nodes
    → address_at nodes i ≡ address_at nodes k
    → i ≡ k
address_at-eq [] i k d li lk e = absurd (omega (arith, li))
address_at-eq (n ∷ nodes) zero zero d li lk e = refl
address_at-eq (n ∷ nodes) zero (suc k) d li lk e =
    absurd (ground (arith, d.0, e, member_at nodes k (omega (arith, lk))))
address_at-eq (n ∷ nodes) (suc i) zero d li lk e =
    absurd (ground (arith, d.0, e, member_at nodes i (omega (arith, li))))
address_at-eq (n ∷ nodes) (suc i) (suc k) d li lk e =
    ap suc (address_at-eq nodes i k d.1 (omega (arith, li)) (omega (arith, lk)) e)

-- The index of the address, or 0 where it is not there.
IsFound : ℕ → String → List Node → ℕ → Type 0
IsFound base cur nodes i =
    ((k : ℕ) × (i ≡ base + k) × (k < length nodes) × (address_at nodes k ≡ cur))
    ⊎ ((i ≡ 0) × (member cur (addresses nodes) ≡ false))

index_from-IsFound :
    (base : ℕ) (cur : String) (nodes : List Node)
    → IsFound base cur nodes (index_from base cur nodes)
unfolding IsFound
index_from-IsFound base cur [] = inr (refl, refl)
index_from-IsFound base cur (n ∷ nodes) =
    if_elim (IsFound base cur (n ∷ nodes)) (n.node_address == cur) {x = base}
      {y = index_from (suc base) cur nodes}
      (λ same. inl (0, omega arith, omega arith, (str_iff n.node_address cur).0 same))
      (λ other. elim (index_from-IsFound (suc base) cur nodes) [
        | inl (k, at, lt, same) ↦ inl (suc k, omega (arith, at), omega (arith, lt), same)
        | inr (at, missing) ↦ inr (at, ground (arith, other, missing))
      ])

next_in_turn : (i n : ℕ) → i < n → 2 ≤ n → ((i + 1) % n < n) × ((i + 1) % n ≢ i)
next_in_turn i n lt two = elim (Bool-cases (ltb (i + 1) n)) [
  | inl t ↦
      let below : i + 1 < n = ground (arith, t) in
      let e : (i + 1) % n ≡ i + 1 = mod-eq_of_lt below in
      (omega (arith, e, below), λ q. omega (arith, e, q))
  | inr f ↦
      let same : i + 1 ≡ n = ground (arith, f, lt) in
      let e : (i + 1) % n ≡ 0 = ap (λ x. x % n) same ∙ mod_self n in
      (omega (arith, e, two), λ q. omega (arith, e, q, same, two))
]

-- The address after the one that is found.
elsewhere :
    (nodes : List Node) (cur : String) (i : ℕ)
    → 2 ≤ length nodes
    → Distinct (addresses nodes)
    → IsFound 0 cur nodes i
    → let addr = address_at nodes ((i + 1) % length nodes) in
      (addr ≢ cur) × (member addr (addresses nodes) ≡ true)
unfolding IsFound
elsewhere nodes cur i two d (inl (k, at, lt, same)) =
    let e : i ≡ k = omega (arith, at) in
    let (there, moved) = next_in_turn i (length nodes) (omega (arith, e, lt)) two in
    (
      λ q. moved (address_at-eq nodes ((i + 1) % length nodes) k d there lt (q ∙ sym same) ∙ sym e),
      member_at nodes ((i + 1) % length nodes) there,
    )
elsewhere nodes cur i two d (inr (at, missing)) =
    let (there, moved) = next_in_turn i (length nodes) (omega (arith, at, two)) two in
    let found = member_at nodes ((i + 1) % length nodes) there in
    ((λ q. ground (arith, q, found, missing)), found)

-- Where there are two candidates or more and no two have one address, an admission that failed is
-- tried again elsewhere: `Retarget` finds the address of a candidate that is not the current one,
-- whether or not the current one is still a candidate.
pub retarget_lem :
    (nodes : List Node) (current : String)
    → 2 ≤ length nodes
    → Distinct (addresses nodes)
    → member "" (addresses nodes) ≡ false
    → (addr : String) × (retarget nodes current ≡ some addr)
      × (addr ≢ current)
      × (member addr (addresses nodes) ≡ true)
unfolding retarget place_except
retarget_lem nodes current two d named =
    let i = index_from 0 current nodes in
    let addr = address_at nodes ((i + 1) % length nodes) in
    let (differs, there) = elsewhere nodes current i two d (index_from-IsFound 0 current nodes) in
    let placed : place_except nodes current ≡ addr = ground (arith, two) in
    let not_empty : addr ≢ "" = λ q. ground (arith, q, there, named) in
    (
      addr,
      ground (arith, placed, ==_ne addr "" not_empty, ==_ne addr current differs),
      differs,
      there,
    )

only_at-some :
    (addr : String) (nodes : List Node)
    → member addr (addresses nodes) ≡ true
    → (n : Node) × (only_at addr nodes ≡ some n) × (n.node_address ≡ addr)
only_at-some addr [] h = absurd (ground (arith, h))
only_at-some addr (n ∷ nodes) h = elim (Bool-cases (n.node_address == addr)) [
  | inl same ↦ (n, ground (arith, same), (str_iff n.node_address addr).0 same)
  | inr other ↦
      let (m, at, same) = only_at-some addr nodes (ground (arith, other, h)) in
      (m, ground (arith, other, at), same)
]

-- Where there are candidates, each with an address, `Place` gives the address of one of them, and a
-- context that is pinned to it is sent there in every call whose nodes have that address: the
-- preparation and the admission of a match go to the same node.
pub placed-target_filter :
    (p : Planner) (nodes all : List Node) (target : String)
    → 1 ≤ length nodes
    → member "" (addresses nodes) ≡ false
    → let pinned = pin (placed p nodes).1 target in
      (member pinned (addresses nodes) ≡ true)
      × (member pinned (addresses all) ≡ true
          → (n : Node) × (target_filter pinned all ≡ n ∷ []) × (n.node_address ≡ pinned))
unfolding next pin target_filter
placed-target_filter p [] all target some_node named = absurd (omega (arith, some_node))
placed-target_filter p (n ∷ nodes) all target some_node named =
    let here = n ∷ nodes in
    let addr = address_at here (p.turn % length here) in
    let found : member addr (addresses here) ≡ true =
      member_at here (p.turn % length here) (mod-lt p.turn (omega arith)) in
    let not_empty : addr ≢ "" = λ q. ground (arith, q, found, named) in
    let same : pin addr target ≡ addr = ground (arith, ==_ne addr "" not_empty) in
    subst
      (λ (x : String).
        (member x (addresses here) ≡ true)
        × (member x (addresses all) ≡ true
            → (m : Node) × (target_filter x all ≡ m ∷ []) × (m.node_address ≡ x)))
      (sym same)
      (
        found,
        λ there.
            let (m, at, equal) = only_at-some addr all there in
            (m, ground (arith, at, ==_ne addr "" not_empty), equal),
      )

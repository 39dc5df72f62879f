-- ===== src/Simulator/Hash/Order.antt =====
-- The keys that `Hash` sorts, services/battle/internal/biz/simulator/hash.go, and the order of a map.
use atlas_game_layout.Common.{
  ℕ, String, true, false, List, [], ◌∷◌, ◌++◌, ◌≡◌, refl, ◌∙◌, ap, subst, arith, Map, Unique,
  Bool-cases, inl, inr, is_some, lookup, length, ◌==◌, string_key, str_iff, if◌then◌else◌, member,
  string_order, Distinct, Ascending, Below, Ascending-unique,
}
use atlas_game_layout.Common.Int.{ℤ}
use atlas_game_layout.Simulator.{Race, value}
use atlas_game_layout.Simulator.Hash.{
  add_keys, keys_of, sink, sink_all, reverse_onto, sort_keys, hash_entries, hash, hash_u64,
  hash_string, as_u32, fnv_offset64,
}

-- Every element comes before `x`.
abbrev Above : String → List String → Type 0
Above x ys = (y : String) → member y ys ≡ true → string_order.before y x ≡ true

abbrev Descending : List String → Type 0
Descending [] = Unit
Descending (x ∷ xs) = Above x xs × Descending xs

member-sink :
    (q k : String) (ps : List String)
    → member q (sink k ps) ≡ (if k == q then true else member q ps)
unfolding sink
member-sink q k [] = refl
member-sink q k (p ∷ ps) = ground (arith, member-sink q k ps)

sink-Descending :
    (k : String) (ps : List String) → member k ps ≡ false → Descending ps → Descending (sink k ps)
unfolding sink
sink-Descending k [] h d = ((λ y m. ground arith), tt)
sink-Descending k (p ∷ ps) h d = elim (Bool-cases (string_order.before k p)) [
  | inl t ↦ rw (t) (
    (λ y m. ground (arith, str_iff k y, member-sink y k ps, d.0 y, t)),
    sink-Descending k ps (ground (arith, h)) d.1,
  )
  | inr f ↦ rw (f) (
    (λ y m. ground (
      arith,
      str_iff p y,
      str_iff p k,
      h,
      string_order.before_total p k,
      string_order.before_trans y p k,
      d.0 y,
      f,
      Bool-cases (string_order.before p k),
    )),
    d,
  )
]

member-sink_all :
    (q : String) (ks ps : List String)
    → member q (sink_all ks ps) ≡ (if member q ks then true else member q ps)
member-sink_all q [] ps = refl
member-sink_all q (k ∷ ks) ps = ground (arith, member-sink_all q ks (sink k ps), member-sink q k ps)

sink_all-Descending :
    (ks ps : List String)
    → Distinct ks
    → ((q : String) → member q ks ≡ true → member q ps ≡ false)
    → Descending ps
    → Descending (sink_all ks ps)
sink_all-Descending [] ps dk h d = d
sink_all-Descending (k ∷ ks) ps dk h d =
    sink_all-Descending ks (sink k ps) dk.1
      (λ q m. ground (arith, member-sink q k ps, str_iff k q, h q, dk.0, m))
      (sink-Descending k ps (h k (ground (arith, str_iff k k))) d)

member-reverse_onto :
    (q : String) (xs acc : List String)
    → member q (reverse_onto xs acc) ≡ (if member q xs then true else member q acc)
member-reverse_onto q [] acc = refl
member-reverse_onto q (x ∷ xs) acc = ground (arith, member-reverse_onto q xs (x ∷ acc))

reverse_onto-Ascending :
    (xs acc : List String)
    → Descending xs
    → Ascending acc
    → ((a : String) → member a xs ≡ true → Below a acc)
    → Ascending (reverse_onto xs acc)
reverse_onto-Ascending [] acc d a h = a
reverse_onto-Ascending (x ∷ xs) acc d a h =
    reverse_onto-Ascending xs (x ∷ acc) d.1 (h x (ground (arith, str_iff x x)), a)
      λ y m z n. elim (Bool-cases (x == z)) [
        | inl t ↦ subst (λ s. string_order.before y s ≡ true) ((str_iff x z).0 t) (d.0 y m)
        | inr f ↦ h y (ground (arith, m)) z (ground (arith, f, n))
      ]

sort_keys-Ascending : (ks : List String) → Distinct ks → Ascending (sort_keys ks)
unfolding sort_keys
sort_keys-Ascending ks d =
    reverse_onto-Ascending (sink_all ks []) [] (sink_all-Descending ks [] d (λ q m. refl) tt) tt
      λ a m b n. absurd (ground (arith, n))

member-sort_keys : (q : String) (ks : List String) → member q (sort_keys ks) ≡ member q ks
unfolding sort_keys
member-sort_keys q ks =
    ground (arith, member-reverse_onto q (sink_all ks []) [], member-sink_all q ks [])

member-snoc :
    (q p : String) (ks : List String)
    → member q (ks ++ p ∷ []) ≡ (if p == q then true else member q ks)
member-snoc q p [] = refl
member-snoc q p (k ∷ ks) = ground (arith, member-snoc q p ks)

snoc-Distinct :
    (p : String) (ks : List String) → member p ks ≡ false → Distinct ks → Distinct (ks ++ p ∷ [])
snoc-Distinct p [] h d = (refl, tt)
snoc-Distinct p (k ∷ ks) h d = (
  ground (arith, member-snoc k p ks, str_iff k p, str_iff p k, h, d.0),
  snoc-Distinct p ks (ground (arith, h)) d.1,
)

member-add_keys :
    (q : String) (m : Map String ℤ) (ks : List String)
    → member q (add_keys m ks) ≡ (if member q ks then true else is_some (lookup q m))
unfolding add_keys
member-add_keys q [] ks = ground (arith)
member-add_keys q ((p, v) ∷ m) ks = elim (Bool-cases (member p ks)) [
  | inl t ↦ rw (t) (member_known q p ks m v t (member-add_keys q m ks))
  | inr f ↦
      rw (f) (ground (arith, str_iff p q, member-add_keys q m (ks ++ p ∷ []), member-snoc q p ks))
]
  where
    member_known :
        (q p : String) (ks : List String) (m : Map String ℤ) (v : ℤ)
        → member p ks ≡ true
        → member q (add_keys m ks) ≡ (if member q ks then true else is_some (lookup q m))
        → member q (add_keys m ks) ≡ (if member q ks then true else is_some (lookup q ((p, v) ∷ m)))
    member_known q p ks m v t e = elim (Bool-cases (p == q)) [
      | inl h ↦
          let k = subst (λ x. member x ks ≡ true) ((str_iff p q).0 h) t in ground (arith, e, k, h)
      | inr f ↦ ground (arith, e, f)
    ]

add_keys-Distinct : (m : Map String ℤ) (ks : List String) → Distinct ks → Distinct (add_keys m ks)
unfolding add_keys
add_keys-Distinct [] ks d = d
add_keys-Distinct ((p, v) ∷ m) ks d = elim (Bool-cases (member p ks)) [
  | inl t ↦ rw (t) (add_keys-Distinct m ks d)
  | inr f ↦ rw (f) (add_keys-Distinct m (ks ++ p ∷ []) (snoc-Distinct p ks f d))
]

member-keys_of : (q : String) (m : Map String ℤ) → member q (keys_of m) ≡ is_some (lookup q m)
member-keys_of q [] = refl
member-keys_of q ((p, v) ∷ m) = ground (arith, member-keys_of q m)

keys_of-Distinct : (m : Map String ℤ) → Unique m → Distinct (keys_of m)
keys_of-Distinct [] u = tt
keys_of-Distinct ((p, v) ∷ m) u = (ground (arith, member-keys_of p m, u.0), keys_of-Distinct m u.1)

hash_entries-lookup :
    (h : ℕ) (m n : Map String ℤ) (ps : List String)
    → ((q : String) → lookup q m ≡ lookup q n)
    → hash_entries h m ps ≡ hash_entries h n ps
unfolding hash_entries
hash_entries-lookup h m n [] e = refl
hash_entries-lookup h m n (p ∷ ps) e =
    rw (e p)
      (hash_entries-lookup (hash_u64 (hash_string h p) (as_u32 (value (lookup p n)))) m n ps e)

sorted_together :
    (r r' : Race)
    → Unique r.positions
    → Unique r'.positions
    → ((q : String) → lookup q r.positions ≡ lookup q r'.positions)
    → ((q : String) → lookup q r.scores ≡ lookup q r'.scores)
    → sort_keys (add_keys r.scores (keys_of r.positions))
      ≡ sort_keys (add_keys r'.scores (keys_of r'.positions))
sorted_together r r' u u' p s =
    let ks = add_keys r.scores (keys_of r.positions) in
    let ks' = add_keys r'.scores (keys_of r'.positions) in
    Ascending-unique (sort_keys ks) (sort_keys ks')
      (sort_keys-Ascending ks
        (add_keys-Distinct r.scores (keys_of r.positions) (keys_of-Distinct r.positions u)))
      (sort_keys-Ascending ks'
        (add_keys-Distinct r'.scores (keys_of r'.positions) (keys_of-Distinct r'.positions u')))
      λ q. ground (
        arith,
        member-sort_keys q ks,
        member-sort_keys q ks',
        member-add_keys q r.scores (keys_of r.positions),
        member-add_keys q r'.scores (keys_of r'.positions),
        member-keys_of q r.positions,
        member-keys_of q r'.positions,
        p q,
        s q,
      )

-- Two races whose positions and scores have the same entries, in whatever order the maps are ranged
-- over, and the same winner, have the same hash; no player has two positions.
pub hash_canonical :
    (r r' : Race)
    → Unique r.positions
    → Unique r'.positions
    → ((q : String) → lookup q r.positions ≡ lookup q r'.positions)
    → ((q : String) → lookup q r.scores ≡ lookup q r'.scores)
    → r.winner ≡ r'.winner
    → hash r ≡ hash r'
unfolding hash
hash_canonical r r' u u' p s w =
    let ks = sort_keys (add_keys r.scores (keys_of r.positions)) in
    let ks' = sort_keys (add_keys r'.scores (keys_of r'.positions)) in
    let e : ks ≡ ks' = sorted_together r r' u u' p s in
    let start = hash_u64 fnv_offset64 in
    let first : hash_entries (start (length ks)) r.positions ks
        ≡ hash_entries (start (length ks')) r'.positions ks' =
      ap (λ x. hash_entries (start (length x)) r.positions x) e
      ∙ hash_entries-lookup (start (length ks')) r.positions r'.positions ks' p in
    let h' = hash_entries (start (length ks')) r'.positions ks' in
    let second =
      ap (λ h. hash_entries (hash_u64 h (length ks)) r.scores ks) first
      ∙ ap (λ x. hash_entries (hash_u64 h' (length x)) r.scores x) e
      ∙ hash_entries-lookup (hash_u64 h' (length ks')) r.scores r'.scores ks' s in
    cc (ap hash_string second, w)

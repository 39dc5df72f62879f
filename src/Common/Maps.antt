-- ===== src/Common/Maps.antt =====
-- Go's maps as association lists. A program reads a map by key, or ranges over its entries; the
-- order of the list is one of the orders that `range` may take.
use mathlib.Core.Path.{◌≡◌, refl}
use mathlib.Core.Bool.{Bool, false}
use mathlib.Core.Option.{Option, none, some}
use mathlib.Core.List.{List, [], ◌∷◌}
use native.Mathlib.Omega.{arith}
use atlas_game_layout.Common.Tests.{if◌then◌else◌, Key, ◌==◌}

abbrev pub Map {ℓ} : Type ℓ → Type ℓ → Type ℓ
Map K V = List (K × V)

module _ {ℓ} {K V : Type ℓ} ⦃e : Key K⦄ where
  -- `v, ok := m[k]`
  abbrev pub lookup : K → Map K V → Option V
  lookup k [] = none
  lookup k ((j, v) ∷ m) = let rest = lookup k m in if j == k then some v else rest

  -- `m[k] = v`
  abbrev pub insert : K → V → Map K V → Map K V
  insert k v [] = (k, v) ∷ []
  insert k v ((j, w) ∷ m) = let rest = insert k v m in if j == k then (k, v) ∷ m else (j, w) ∷ rest

  -- `delete(m, k)`
  abbrev pub delete : K → Map K V → Map K V
  delete k [] = []
  delete k ((j, w) ∷ m) = let rest = delete k m in if j == k then rest else (j, w) ∷ rest

  pub lookup-insert :
      (k j : K) (v : V) (m : Map K V)
      → lookup j (insert k v m) ≡ (if k == j then some v else lookup j m)
  lookup-insert k j v [] = refl
  lookup-insert k j v ((i, w) ∷ m) =
      ground (arith, e.beq_iff k j, e.beq_iff i k, e.beq_iff i j, lookup-insert k j v m)

  pub lookup-delete :
      (k j : K) (m : Map K V) → lookup j (delete k m) ≡ (if k == j then none else lookup j m)
  lookup-delete k j [] = ground arith
  lookup-delete k j ((i, w) ∷ m) =
      ground (arith, e.beq_iff k j, e.beq_iff i k, e.beq_iff i j, lookup-delete k j m)

  -- `for k, v := range m { if !keep(k, v) { delete(m, k) } }`
  abbrev pub filter_map : (K → V → Bool) → Map K V → Map K V
  filter_map p [] = []
  filter_map p ((j, w) ∷ m) = let rest = filter_map p m in if p j w then (j, w) ∷ rest else rest

  -- No key has two entries, as in every map of the program.
  abbrev pub Unique : Map K V → Type ℓ
  Unique [] = Unit
  Unique ((j, w) ∷ m) = (lookup j m ≡ none) × Unique m

  pub lookup-filter_map :
      (k : K) (p : K → V → Bool) (m : Map K V)
      → Unique m
      → lookup k (filter_map p m)
        ≡ elim (lookup k m) [ none ↦ none | some v ↦ if p k v then some v else none ]
  lookup-filter_map k p [] u = refl
  lookup-filter_map k p ((j, w) ∷ m) u = ground (arith, e.beq_iff j k, lookup-filter_map k p m u.1)

  pub insert-Unique : (k : K) (v : V) (m : Map K V) → Unique m → Unique (insert k v m)
  insert-Unique k v [] u = (refl, tt)
  insert-Unique k v ((j, w) ∷ m) u =
      ground (arith, e.beq_iff j k, e.beq_iff k j, lookup-insert k j v m, insert-Unique k v m u.1)

  pub delete-Unique : (k : K) (m : Map K V) → Unique m → Unique (delete k m)
  delete-Unique k [] u = tt
  delete-Unique k ((j, w) ∷ m) u =
      ground (arith, e.beq_iff j k, lookup-delete k j m, delete-Unique k m u.1)

  pub filter_map-Unique : (p : K → V → Bool) (m : Map K V) → Unique m → Unique (filter_map p m)
  filter_map-Unique p [] u = tt
  filter_map-Unique p ((j, w) ∷ m) u =
      ground (arith, lookup-filter_map j p m u.1, filter_map-Unique p m u.1)

  -- Nothing is kept where the test fails on every entry.
  pub filter_map-eq-nil :
      (p : K → V → Bool) (m : Map K V)
      → Unique m
      → ((k : K) (v : V) → lookup k m ≡ some v → p k v ≡ false)
      → filter_map p m ≡ []
  filter_map-eq-nil p [] u h = refl
  filter_map-eq-nil p ((j, w) ∷ m) u h =
      let head = h j w (ground (arith, e.beq_iff j j)) in
      let tail = filter_map-eq-nil p m u.1 λ k v at. h k v (ground (arith, e.beq_iff j k)) in
      ground (arith, head, tail)

-- ===== src/Common/Least.antt =====
-- The first element of a sorted slice.
use mathlib.Core.Path.{◌≡◌, refl, ap}
use mathlib.Core.Logic.{inl, inr}
use mathlib.Core.Bool.{true, false}
use mathlib.Core.Option.{Option, none, some}
use mathlib.Core.List.{List, [], ◌∷◌}
use native.Mathlib.Omega.{arith}
use atlas_game_layout.Common.Tests.{Key, Bool-cases, ==_refl, if_elim}
use atlas_game_layout.Common.Lists.{member, All, length}
use atlas_game_layout.Common.Sorting.{Order, insert_sorted, sort}

abbrev pub first {ℓ} : {A : Type ℓ} → List A → Option A
first [] = none
first (x ∷ xs) = some x

module _ {ℓ} {K : Type ℓ} ⦃e : Key K⦄ ⦃o : Order K⦄ where
  -- An element that none comes before; there is none in the empty list only.
  abbrev pub IsLeast : List K → Option K → Type 0
  IsLeast xs none = length xs ≡ 0
  IsLeast xs (some y) = (member y xs ≡ true) × All (λ x. o.before x y ≡ false) xs

  not_after : (x y z : K) → o.before y x ≡ false → o.before z y ≡ false → o.before z x ≡ false
  not_after x y z p q = elim (Bool-cases (o.before z x)) [
    | inr f ↦ f
    | inl zx ↦ elim (Bool-cases (o.before x y)) [
      | inl xy ↦ absurd (ground (arith, o.before_trans z x y zx xy))
      | inr yx ↦
          let same = o.before_total x y yx p in
          absurd (ground (arith, zx, q, ap (λ k. o.before z k) same))
    ]
  ]

  All-not_after :
      (x y : K) (zs : List K)
      → o.before y x ≡ false
      → All (λ z. o.before z y ≡ false) zs
      → All (λ z. o.before z x ≡ false) zs
  All-not_after x y [] p h = tt
  All-not_after x y (z ∷ zs) p h = (not_after x y z p h.0, All-not_after x y zs p h.1)

  All-nil : (P : K → Type 0) (xs : List K) → length xs ≡ 0 → All P xs
  All-nil P [] h = tt
  All-nil P (x ∷ xs) h = absurd (ground arith)

  insert_sorted-IsLeast :
      (x : K) (xs ys : List K)
      → IsLeast xs (first ys)
      → IsLeast (x ∷ xs) (first (insert_sorted x ys))
  insert_sorted-IsLeast x xs [] h =
      (ground (arith, ==_refl x), (o.before_irrefl x, All-nil (λ z. o.before z x ≡ false) xs h))
  insert_sorted-IsLeast x xs (y ∷ ys) h =
      if_elim (λ (zs : List K). IsLeast (x ∷ xs) (first zs)) (o.before y x)
        {x = y ∷ insert_sorted x ys} {y = x ∷ y ∷ ys}
        (λ t. (ground (arith, h.0), (ground (arith, o.before_trans x y x, o.before_irrefl x), h.1)))
        (λ f. (ground (arith, ==_refl x), (o.before_irrefl x, All-not_after x y xs f h.1)))

  pub sort-IsLeast : (xs : List K) → IsLeast xs (first (sort xs))
  sort-IsLeast [] = refl
  sort-IsLeast (x ∷ xs) = insert_sorted-IsLeast x xs (sort xs) (sort-IsLeast xs)

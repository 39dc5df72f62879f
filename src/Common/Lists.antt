-- ===== src/Common/Lists.antt =====
-- Lists measured by native numbers, and predicates over them.
use Prim.Native.Nat.{ℕ, suc, ◌+◌}
use mathlib.Core.Path.{◌≡◌, refl}
use mathlib.Core.Logic.{inl, inr}
use mathlib.Core.Bool.{Bool, true, false}
use mathlib.Core.List.{List, [], ◌∷◌, ◌++◌}
use native.Mathlib.Omega.{arith}
use atlas_game_layout.Common.Tests.{if◌then◌else◌, Key, ◌==◌, Bool-cases}

module _ {ℓ} {A : Type ℓ} where
  abbrev pub length : List A → ℕ
  length [] = 0
  length (x ∷ xs) = suc (length xs)

  pub length-append : (xs ys : List A) → length (xs ++ ys) ≡ length xs + length ys
  length-append [] ys = omega arith
  length-append (x ∷ xs) ys = omega (arith, length-append xs ys)

  -- The elements that pass a Boolean test, in order.
  abbrev pub keep : (A → Bool) → List A → List A
  keep p [] = []
  keep p (x ∷ xs) = let rest = keep p xs in if p x then x ∷ rest else rest

  abbrev pub All {κ} : (A → Type κ) → List A → Type κ
  All P [] = Unit
  All P (x ∷ xs) = P x × All P xs

  pub All-append {κ} : (P : A → Type κ) (xs ys : List A) → All P xs → All P ys → All P (xs ++ ys)
  All-append P [] ys hx hy = hy
  All-append P (x ∷ xs) ys hx hy = (hx.0, All-append P xs ys hx.1 hy)

module _ {ℓ κ} {A : Type ℓ} (p : A → Bool) (P : A → Type κ) where
  kept_cons :
      (x : A) (xs : List A) (b : Bool)
      → p x ≡ b
      → (All P (keep p xs) → All (λ y. p y ≡ true → P y) xs)
      → All P (if b then x ∷ keep p xs else keep p xs)
      → All (λ y. p y ≡ true → P y) (x ∷ xs)
  kept_cons x xs true t rest h = ((λ e. h.0), rest h.1)
  kept_cons x xs false f rest h = ((λ e. absurd (ground (arith, e, f))), rest h)

  -- What holds of the elements that are kept.
  pub All-keep : (xs : List A) → All P (keep p xs) → All (λ x. p x ≡ true → P x) xs
  All-keep [] h = tt
  All-keep (x ∷ xs) h = kept_cons x xs (p x) refl (All-keep xs) h

-- Membership by Go's `==`, as the linear scans write it.
module _ {ℓ} {K : Type ℓ} ⦃e : Key K⦄ where
  abbrev pub member : K → List K → Bool
  member k [] = false
  member k (x ∷ xs) = let rest = member k xs in if x == k then true else rest

  -- How often an element is in a list.
  abbrev pub times : K → List K → ℕ
  times w [] = 0
  times w (x ∷ xs) = (if x == w then 1 else 0) + times w xs

  pub times-append : (w : K) (xs ys : List K) → times w (xs ++ ys) ≡ times w xs + times w ys
  times-append w [] ys = omega arith
  times-append w (x ∷ xs) ys = omega (arith, times-append w xs ys)

  pub member-keep :
      (p : K → Bool) (k : K) (xs : List K)
      → member k (keep p xs) ≡ true
      → (member k xs ≡ true) × (p k ≡ true)
  member-keep p k [] h = ground arith
  member-keep p k (x ∷ xs) h = elim (Bool-cases (x == k)) [
    | inr other ↦ ground (arith, member-keep p k xs)
    | inl same ↦ ground (arith, (e.beq_iff x k).0 same, member-keep p k xs)
  ]

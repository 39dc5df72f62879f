-- ===== src/Common/Sorting.antt =====
-- Linear orders, the order of Go's strings, and sorted slices. A string is compared by its code
-- points, which UTF-8 keeps in order.
use Prim.Native.Nat.{ℕ}
use Prim.Native.Char.{code}
use Prim.Native.String.{String}
use mathlib.Core.Path.{◌≡◌, refl, sym, ap, subst, ◌∙◌}
use mathlib.Core.Logic.{inl, inr}
use mathlib.Core.Bool.{Bool, true, false}
use mathlib.Core.List.{List, [], ◌∷◌}
use native.Mathlib.Omega.{arith}
use text.Mathlib.TextEquality.{Char-path}
use atlas_game_layout.Common.Tests.{if◌then◌else◌, Key, ◌==◌, ltb, nat_key, string_key, Bool-cases}
use atlas_game_layout.Common.Lists.{member}

pub record Order {ℓ} (K : Type ℓ) : Type ℓ where
  pub before : K → K → Bool
  pub before_irrefl : (a : K) → before a a ≡ false
  pub before_trans : (a b c : K) → before a b ≡ true → before b c ≡ true → before a c ≡ true
  pub before_total : (a b : K) → before a b ≡ false → before b a ≡ false → a ≡ b

pub ltb_irrefl : (a : ℕ) → ltb a a ≡ false
ltb_irrefl a = ground arith

pub ltb_trans : (a b c : ℕ) → ltb a b ≡ true → ltb b c ≡ true → ltb a c ≡ true
ltb_trans a b c p q = ground arith

pub ltb_total : (a b : ℕ) → ltb a b ≡ false → ltb b a ≡ false → a ≡ b
ltb_total a b p q = ground arith

instance abbrev pub nat_order : Order ℕ
nat_order = record {
  before = ltb;
  before_irrefl = ltb_irrefl;
  before_trans = ltb_trans;
  before_total = ltb_total;
}

abbrev pub string_before : String → String → Bool
string_before _ String.[] = false
string_before String.[] (String.◌∷◌ d t) = true
string_before (String.◌∷◌ c s) (String.◌∷◌ d t) =
    let rest = string_before s t in
    if ltb (code c) (code d) then true else if ltb (code d) (code c) then false else rest

pub string_before_irrefl : (s : String) → string_before s s ≡ false
string_before_irrefl String.[] = refl
string_before_irrefl (String.◌∷◌ c s) = ground (arith, string_before_irrefl s)

pub string_before_trans :
    (s t u : String)
    → string_before s t ≡ true
    → string_before t u ≡ true
    → string_before s u ≡ true
string_before_trans s t String.[] p q = q
string_before_trans s String.[] (String.◌∷◌ e u) p q = ground arith
string_before_trans String.[] (String.◌∷◌ d t) (String.◌∷◌ e u) p q = refl
string_before_trans (String.◌∷◌ c s) (String.◌∷◌ d t) (String.◌∷◌ e u) p q =
    ground (arith, string_before_trans s t u)

pub string_before_total :
    (s t : String) → string_before s t ≡ false → string_before t s ≡ false → s ≡ t
string_before_total String.[] String.[] p q = refl
string_before_total String.[] (String.◌∷◌ d t) p q = ground arith
string_before_total (String.◌∷◌ c s) String.[] p q = ground arith
string_before_total (String.◌∷◌ c s) (String.◌∷◌ d t) p q =
    let e = Char-path c d (ground arith) in
    cc (e, string_before_total s t (ground arith) (ground arith))

instance abbrev pub string_order : Order String
string_order = record {
  before = string_before;
  before_irrefl = string_before_irrefl;
  before_trans = string_before_trans;
  before_total = string_before_total;
}

module _ {ℓ} {K : Type ℓ} ⦃o : Order K⦄ where
  abbrev pub insert_sorted : K → List K → List K
  insert_sorted x [] = x ∷ []
  insert_sorted x (y ∷ ys) =
      let rest = insert_sorted x ys in if o.before y x then y ∷ rest else x ∷ y ∷ ys

  -- `sort.Strings`, and `sort.Slice` by `<`: equal elements are indistinguishable.
  abbrev pub sort : List K → List K
  sort [] = []
  sort (x ∷ xs) = insert_sorted x (sort xs)

module _ {ℓ} {K : Type ℓ} ⦃e : Key K⦄ where
  abbrev pub Distinct : List K → Type ℓ
  Distinct [] = Unit
  Distinct (x ∷ xs) = (member x xs ≡ false) × Distinct xs

module _ {ℓ} {K : Type ℓ} ⦃e : Key K⦄ ⦃o : Order K⦄ where
  -- `x` comes before every element.
  abbrev pub Below : K → List K → Type ℓ
  Below x ys = (y : K) → member y ys ≡ true → o.before x y ≡ true

  abbrev pub Ascending : List K → Type ℓ
  Ascending [] = Unit
  Ascending (x ∷ xs) = Below x xs × Ascending xs

  pub member-insert_sorted :
      (k x : K) (ys : List K)
      → member k (insert_sorted x ys) ≡ (if x == k then true else member k ys)
  member-insert_sorted k x [] = refl
  member-insert_sorted k x (y ∷ ys) = ground (arith, member-insert_sorted k x ys)

  pub member-sort : (k : K) (xs : List K) → member k (sort xs) ≡ member k xs
  member-sort k [] = refl
  member-sort k (x ∷ xs) = ground (arith, member-insert_sorted k x (sort xs), member-sort k xs)

  before_member : (x y : K) (ys : List K) → member x (y ∷ ys) ≡ false → (y == x) ≡ false
  before_member x y ys h = ground arith

  insert_sorted-Ascending :
      (x : K) (ys : List K) → member x ys ≡ false → Ascending ys → Ascending (insert_sorted x ys)
  insert_sorted-Ascending x [] h a = ((λ y m. ground arith), tt)
  insert_sorted-Ascending x (y ∷ ys) h a = elim (Bool-cases (o.before y x)) [
    | inl t ↦ rw (t) (
      (λ k m. ground (arith, e.beq_iff x k, member-insert_sorted k x ys, a.0 k)),
      insert_sorted-Ascending x ys (ground arith) a.1,
    )
    | inr f ↦ rw (f) (
      (λ k m. ground (
        arith,
        e.beq_iff y x,
        e.beq_iff y k,
        o.before_total y x f,
        o.before_trans x y k,
        a.0 k,
        Bool-cases (o.before x y),
      )),
      a,
    )
  ]

  pub sort-Ascending : (xs : List K) → Distinct xs → Ascending (sort xs)
  sort-Ascending [] d = tt
  sort-Ascending (x ∷ xs) d =
      insert_sorted-Ascending x (sort xs) (member-sort x xs ∙ d.0) (sort-Ascending xs d.1)

  member_head : (x : K) (xs : List K) → member x (x ∷ xs) ≡ true
  member_head x xs = ground (arith, e.beq_iff x x)

  head_unique :
      (x y : K) (xs ys : List K)
      → Below x xs
      → Below y ys
      → member x (y ∷ ys) ≡ true
      → member y (x ∷ xs) ≡ true
      → x ≡ y
  head_unique x y xs ys bx by p q =
      ground
        (arith, e.beq_iff x y, e.beq_iff y x, bx y, by x, o.before_trans x y x, o.before_irrefl x)

  tail_member :
      (x k : K) (xs ys : List K)
      → Below x xs
      → Below x ys
      → member k (x ∷ xs) ≡ member k (x ∷ ys)
      → member k xs ≡ member k ys
  tail_member x k xs ys bx by h = elim (Bool-cases (x == k)) [
    | inl t ↦
        let e' = (e.beq_iff x k).0 t in let i = o.before_irrefl x in ground (arith, bx k, by k)
    | inr f ↦ ground arith
  ]

  pub Ascending-unique :
      (xs ys : List K)
      → Ascending xs
      → Ascending ys
      → ((k : K) → member k xs ≡ member k ys)
      → xs ≡ ys
  Ascending-unique [] [] a b h = refl
  Ascending-unique [] (y ∷ ys) a b h = absurd (ground (arith, h y, member_head y ys))
  Ascending-unique (x ∷ xs) [] a b h = absurd (ground (arith, h x, member_head x xs))
  Ascending-unique (x ∷ xs) (y ∷ ys) a b h =
      let p =
        head_unique x y xs ys a.0 b.0 (sym (h x) ∙ member_head x xs) (h y ∙ member_head y ys) in
      let by = subst (λ z. Below z ys) (sym p) b.0 in
      let h' : (k : K) → member k (x ∷ xs) ≡ member k (x ∷ ys) =
        λ k. h k ∙ ap (λ z. member k (z ∷ ys)) (sym p) in
      cc (p, Ascending-unique xs ys a.1 b.1 λ k. tail_member x k xs ys a.0 by (h' k))

  -- The sorted slice of a set does not depend on the order it is ranged over.
  pub sort_canonical :
      (xs ys : List K)
      → Distinct xs
      → Distinct ys
      → ((k : K) → member k xs ≡ member k ys)
      → sort xs ≡ sort ys
  sort_canonical xs ys dx dy h =
      Ascending-unique (sort xs) (sort ys) (sort-Ascending xs dx) (sort-Ascending ys dy)
        λ k. member-sort k xs ∙ h k ∙ sym (member-sort k ys)

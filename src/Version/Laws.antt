-- ===== src/Version/Laws.antt =====
-- `Compare` of compare.go is an order.
use atlas_game_layout.Common.{
  true, ◌≤◌, string_before, ◌≢◌, suc, ◌⊎◌, String, Option, none, some, ◌≡◌, refl, ap,
  string_before_irrefl, string_before_trans, string_before_total, str_iff, string_key, arith, inl,
  inr,
}
use atlas_game_layout.Version.{
  Comparison, less, equal, greater, Parsed, compare_pre, compare_parsed, compared, compare, parse,
}

abbrev pub flip : Comparison → Comparison
flip less = greater
flip equal = equal
flip greater = less

compare_pre-flip : (a b : String) → compare_pre b a ≡ flip (compare_pre a b)
unfolding compare_pre
compare_pre-flip a b = ground (
  arith,
  str_iff a b,
  str_iff b a,
  str_iff a "",
  str_iff b "",
  string_before_total a b,
  string_before_trans a b a,
  string_before_irrefl a,
)

compare_pre_trans :
    (a b c : String) → compare_pre a b ≡ less → compare_pre b c ≡ less → compare_pre a c ≡ less
unfolding compare_pre
compare_pre_trans a b c h k = ground (
  arith,
  str_iff a b,
  str_iff b c,
  str_iff a c,
  str_iff a "",
  str_iff b "",
  str_iff c "",
  string_before_trans a b c,
  string_before_trans a b a,
  string_before_irrefl a,
)

compare_pre_eq : (a b : String) → compare_pre a b ≡ equal → a ≡ b
unfolding compare_pre
compare_pre_eq a b h = ground (arith, str_iff a b)

compare_parsed-flip : (a b : Parsed) → compare_parsed b a ≡ flip (compare_parsed a b)
unfolding compare_parsed
compare_parsed-flip a b = ground (arith, compare_pre-flip a.pre b.pre)

compare_parsed_eq : (a b : Parsed) → compare_parsed a b ≡ equal → a ≡ b
unfolding compare_parsed
compare_parsed_eq a b h = ground (arith, compare_pre_eq a.pre b.pre)

compare_parsed_trans :
    (a b c : Parsed)
    → compare_parsed a b ≡ less
    → compare_parsed b c ≡ less
    → compare_parsed a c ≡ less
unfolding compare_parsed
compare_parsed_trans a b c h k = ground (
  arith,
  compare_pre_trans a.pre b.pre c.pre,
  compare_pre_eq a.pre b.pre,
  compare_pre_eq b.pre c.pre,
)

-- A release is above its pre-releases, which stand in the order of their text.
abbrev IsPreBelow : String → String → Type 0
IsPreBelow a b = (a ≢ "") × ((b ≡ "") ⊎ (string_before a b ≡ true))

-- The number that differs first decides; the pre-release does where none does.
abbrev pub IsBelow : Parsed → Parsed → Type 0
IsBelow a b =
    (suc a.major ≤ b.major)
    ⊎ ((a.major ≡ b.major)
        × ((suc a.minor ≤ b.minor)
            ⊎ ((a.minor ≡ b.minor)
                × ((suc a.patch ≤ b.patch) ⊎ ((a.patch ≡ b.patch) × IsPreBelow a.pre b.pre)))))

compare_pre-IsPreBelow : (a b : String) → compare_pre a b ≡ less → IsPreBelow a b
unfolding compare_pre
compare_pre-IsPreBelow a b h = ground (arith, str_iff a b, str_iff a "", str_iff b "")

compare_parsed-IsBelow : (a b : Parsed) → compare_parsed a b ≡ less → IsBelow a b
unfolding compare_parsed
compare_parsed-IsBelow a b h = ground (arith, compare_pre-IsPreBelow a.pre b.pre)

IsPreBelow-less : (a b : String) → IsPreBelow a b → compare_pre a b ≡ less
unfolding compare_pre
IsPreBelow-less a b h =
    ground (arith, str_iff a b, str_iff a "", str_iff b "", string_before_irrefl a)

IsBelow-less : (a b : Parsed) → IsBelow a b → compare_parsed a b ≡ less
unfolding compare_parsed
IsBelow-less a b h = ground (arith, IsPreBelow-less a.pre b.pre)

-- Two versions that parse, the first below the second.
abbrev pub AreBelow : Option Parsed → Option Parsed → Type 0
AreBelow a b = (x : Parsed) × (y : Parsed) × (a ≡ some x) × (b ≡ some y) × IsBelow x y

compared-AreBelow : (a b : Option Parsed) → compared a b ≡ some less → AreBelow a b
compared-AreBelow none b h = absurd (ground (arith, h))
compared-AreBelow (some a) none h = absurd (ground (arith, h))
compared-AreBelow (some a) (some b) h =
    (a, b, refl, refl, compare_parsed-IsBelow a b (ground (arith, h)))

AreBelow-compared : (a b : Option Parsed) → AreBelow a b → compared a b ≡ some less
AreBelow-compared a b (x, y, at, at', h) = rw (at, at') (ap some (IsBelow-less x y h))

abbrev pub flipped : Option Comparison → Option Comparison
flipped none = none
flipped (some c) = some (flip c)

-- What an order gives, of results that may be errors.
abbrev IsOrdered : Option Parsed → Option Parsed → Option Parsed → Type 0
IsOrdered a b c =
    (compared b a ≡ flipped (compared a b))
    × (compared a b ≡ some less → compared b c ≡ some less → compared a c ≡ some less)
    × (compared a b ≡ some equal → a ≡ b)
    × (compared a b ≡ none → (a ≡ none) ⊎ (b ≡ none))

compared-IsOrdered : (a b c : Option Parsed) → IsOrdered a b c
compared-IsOrdered none none c = (refl, (λ h k. ground (arith, h)), (λ h. refl), λ h. inl refl)
compared-IsOrdered none (some b) c =
    (refl, (λ h k. ground (arith, h)), (λ h. ground (arith, h)), λ h. inl refl)
compared-IsOrdered (some a) none c =
    (refl, (λ h k. ground (arith, h)), (λ h. ground (arith, h)), λ h. inr refl)
compared-IsOrdered (some a) (some b) none = (
  ap some (compare_parsed-flip a b),
  (λ h k. ground (arith, k)),
  (λ h. ap some (compare_parsed_eq a b (ground (arith, h)))),
  λ h. ground (arith, h),
)
compared-IsOrdered (some a) (some b) (some c) = (
  ap some (compare_parsed-flip a b),
  (λ h k. ap some (compare_parsed_trans a b c (ground (arith, h)) (ground (arith, k)))),
  (λ h. ap some (compare_parsed_eq a b (ground (arith, h)))),
  λ h. ground (arith, h),
)

-- `Compare` orders the versions: it gives -1 exactly where both parse and the first is below the
-- second, by the first number that differs, or by the pre-releases where none does, a release above
-- each of its pre-releases and these by their text; the other way round it gives the opposite
-- result, and an error together with it; a version below one that is below a third is below that
-- one; versions that are equal have the same numbers and the same pre-release; and an error comes
-- only where one of the two does not parse.
pub compare-IsOrdered :
    (a b c : String)
    → (compare a b ≡ some less → AreBelow (parse a) (parse b))
      × (AreBelow (parse a) (parse b) → compare a b ≡ some less)
      × (compare b a ≡ flipped (compare a b))
      × (compare a b ≡ some less → compare b c ≡ some less → compare a c ≡ some less)
      × (compare a b ≡ some equal → parse a ≡ parse b)
      × (compare a b ≡ none → (parse a ≡ none) ⊎ (parse b ≡ none))
unfolding compare
compare-IsOrdered a b c =
    let (flips, goes_on, same, errs) = compared-IsOrdered (parse a) (parse b) (parse c) in
    (
      compared-AreBelow (parse a) (parse b),
      AreBelow-compared (parse a) (parse b),
      flips,
      goes_on,
      same,
      errs,
    )

-- ===== src/Version.antt =====
-- The comparison of versions, lib/version/compare.go.
pub mod Laws
pub mod Texts
use Prim.Native.Char.{Char, code}
use atlas_game_layout.Common.{
  ℕ, String, Bool, true, false, not, List, [], ◌∷◌, Option, none, some, member, leb, ltb, atoi,
  string_before, ◌==◌, ◌&&◌, ◌||◌, nat_key, string_key, if◌then◌else◌,
}

-- -1, 0 and 1.
pub data Comparison : Type 0 where
  less : Comparison
  equal : Comparison
  greater : Comparison

-- The results of `parse`.
pub record Parsed : Type 0 where
  pub major : ℕ
  pub minor : ℕ
  pub patch : ℕ
  pub pre : String

-- `unicode.IsSpace`.
abbrev pub is_space : Char → Bool
is_space c =
    let n = code c in
    (leb 9 n && leb n 13)
    || (leb 8192 n && leb n 8202)
    || member n (32 ∷ 133 ∷ 160 ∷ 5760 ∷ 8232 ∷ 8233 ∷ 8239 ∷ 8287 ∷ 12288 ∷ [])

abbrev pub trim_left : String → String
trim_left String.[] = ""
trim_left (String.◌∷◌ c s) = let rest = trim_left s in if is_space c then rest else String.◌∷◌ c s

abbrev pub only_space : String → Bool
only_space String.[] = true
only_space (String.◌∷◌ c s) = is_space c && only_space s

abbrev pub trim_right : String → String
trim_right String.[] = ""
trim_right (String.◌∷◌ c s) =
    let rest = trim_right s in if is_space c && only_space s then "" else String.◌∷◌ c rest

-- `strings.TrimSpace`.
abbrev pub trim_space : String → String
trim_space s = trim_right (trim_left s)

-- What stands before the first `sep`, and after it; all and nothing where there is none.
abbrev pub before_sep : ℕ → String → String
before_sep sep String.[] = ""
before_sep sep (String.◌∷◌ c s) =
    let rest = before_sep sep s in if code c == sep then "" else String.◌∷◌ c rest

abbrev pub after_sep : ℕ → String → String
after_sep sep String.[] = ""
after_sep sep (String.◌∷◌ c s) = let rest = after_sep sep s in if code c == sep then s else rest

-- `strings.Split` at the dots.
abbrev pub cons_first : Char → List String → List String
cons_first c [] = String.◌∷◌ c "" ∷ []
cons_first c (p ∷ ps) = String.◌∷◌ c p ∷ ps

abbrev pub split_dots : String → List String
split_dots String.[] = "" ∷ []
split_dots (String.◌∷◌ c s) =
    let rest = split_dots s in if code c == 46 then "" ∷ rest else cons_first c rest

-- The loop of `parse`: at most three numbers, those that are missing 0.
abbrev of_three : String → Option ℕ → Option ℕ → Option ℕ → Option Parsed
of_three pre (some a) (some b) (some c) =
    some (record { major = a; minor = b; patch = c; pre = pre })
of_three pre (some a) (some b) none = none
of_three pre (some a) none c = none
of_three pre none b c = none

abbrev pub numbers : String → List String → Option Parsed
numbers pre [] = none
numbers pre (a ∷ []) = of_three pre (atoi a) (some 0) (some 0)
numbers pre (a ∷ b ∷ []) = of_three pre (atoi a) (atoi b) (some 0)
numbers pre (a ∷ b ∷ c ∷ []) = of_three pre (atoi a) (atoi b) (atoi c)
numbers pre (a ∷ b ∷ c ∷ d ∷ rest) = none

-- `parse`: none for an error. The build goes first, then what follows the first dash.
abbrev pub parse_trimmed : String → Option Parsed
parse_trimmed s =
    if s == ""
    then none
    else let bare = before_sep 43 s in numbers (after_sep 45 bare) (split_dots (before_sep 45 bare))

unfoldable pub parse : String → Option Parsed
parse v = parse_trimmed (trim_space v)

-- The last `switch` of `Compare`.
unfoldable pub compare_pre : String → String → Comparison
compare_pre a b =
    if a == b
    then equal
    else if a == ""
    then greater
    else if b == ""
    then less
    else if string_before a b
    then less
    else greater

-- One turn of the loop of `Compare`.
abbrev pub compare_number : ℕ → ℕ → Comparison → Comparison
compare_number a b next = if ltb a b then less else if ltb b a then greater else next

unfoldable pub compare_parsed : Parsed → Parsed → Comparison
unfolding compare_pre
compare_parsed a b =
    compare_number a.major b.major
      (compare_number a.minor b.minor (compare_number a.patch b.patch (compare_pre a.pre b.pre)))

-- `Compare`: none for an error.
abbrev pub compared : Option Parsed → Option Parsed → Option Comparison
compared none b = none
compared (some a) none = none
compared (some a) (some b) = some (compare_parsed a b)

unfoldable pub compare : String → String → Option Comparison
unfolding compare_parsed parse
compare a b = compared (parse a) (parse b)

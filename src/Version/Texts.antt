-- ===== src/Version/Texts.antt =====
-- What `parse` of compare.go reads in a version that is written out.
use Prim.Native.Char.{Char, code}
use atlas_game_layout.Common.{
  ℕ, String, Bool, true, false, not, [], ◌∷◌, Option, none, some, ◌≡◌, refl, ap, ◌∙◌, atoi, ◌==◌,
  ◌&&◌, nat_key, string_key, str_iff, arith, subst, Bool-cases, inl, inr,
}
use atlas_game_layout.Version.{
  parse, is_space, trim_left, trim_right, trim_space, before_sep, after_sep, split_dots, numbers,
  parse_trimmed,
}

abbrev pub join : String → String → String
join String.[] t = t
join (String.◌∷◌ c s) t = String.◌∷◌ c (join s t)

-- A text with no space in it, and one without a character.
abbrev pub no_space : String → Bool
no_space String.[] = true
no_space (String.◌∷◌ c s) = not (is_space c) && no_space s

abbrev pub absent : ℕ → String → Bool
absent sep String.[] = true
absent sep (String.◌∷◌ c s) = not (code c == sep) && absent sep s

no_space-join : (s t : String) → no_space (join s t) ≡ (no_space s && no_space t)
no_space-join String.[] t = refl
no_space-join (String.◌∷◌ c s) t = ground (arith, no_space-join s t)

absent-join : (sep : ℕ) (s t : String) → absent sep (join s t) ≡ (absent sep s && absent sep t)
absent-join sep String.[] t = refl
absent-join sep (String.◌∷◌ c s) t = ground (arith, absent-join sep s t)

trim_left-no_space : (s : String) → no_space s ≡ true → trim_left s ≡ s
trim_left-no_space String.[] h = refl
trim_left-no_space (String.◌∷◌ c s) h = ground (arith, h)

trim_right-no_space : (s : String) → no_space s ≡ true → trim_right s ≡ s
trim_right-no_space String.[] h = refl
trim_right-no_space (String.◌∷◌ c s) h = ground (arith, h, trim_right-no_space s)

before_sep-absent : (sep : ℕ) (s : String) → absent sep s ≡ true → before_sep sep s ≡ s
before_sep-absent sep String.[] h = refl
before_sep-absent sep (String.◌∷◌ c s) h = ground (arith, h, before_sep-absent sep s)

after_sep-absent : (sep : ℕ) (s : String) → absent sep s ≡ true → after_sep sep s ≡ ""
after_sep-absent sep String.[] h = refl
after_sep-absent sep (String.◌∷◌ c s) h = ground (arith, h, after_sep-absent sep s)

module _ (sep : ℕ) (x : Char) (is : code x ≡ sep) (t : String) where
  before_sep-join :
      (s : String) → absent sep s ≡ true → before_sep sep (join s (String.◌∷◌ x t)) ≡ s
  before_sep-join String.[] h = ground (arith, is)
  before_sep-join (String.◌∷◌ c s) h = ground (arith, h, before_sep-join s)

  after_sep-join : (s : String) → absent sep s ≡ true → after_sep sep (join s (String.◌∷◌ x t)) ≡ t
  after_sep-join String.[] h = ground (arith, is)
  after_sep-join (String.◌∷◌ c s) h = ground (arith, h, after_sep-join s)

split_dots-absent : (s : String) → absent 46 s ≡ true → split_dots s ≡ s ∷ []
split_dots-absent String.[] h = refl
split_dots-absent (String.◌∷◌ c s) h = ground (arith, h, split_dots-absent s)

split_dots-join :
    (x : Char) (t s : String)
    → code x ≡ 46
    → absent 46 s ≡ true
    → split_dots (join s (String.◌∷◌ x t)) ≡ s ∷ split_dots t
split_dots-join x t String.[] is h = ground (arith, is)
split_dots-join x t (String.◌∷◌ c s) is h = ground (arith, h, split_dots-join x t s is)

join-empty : (s : String) → join s "" ≡ s
join-empty String.[] = refl
join-empty (String.◌∷◌ c s) = ap (λ r. String.◌∷◌ c r) (join-empty s)

abbrev IsText : String → Type 0
IsText String.[] = ⊥
IsText (String.◌∷◌ c s) = Unit

IsText-join : (x : Char) (t s : String) → IsText (join s (String.◌∷◌ x t))
IsText-join x t String.[] = tt
IsText-join x t (String.◌∷◌ c s) = tt

IsText-some : (s : String) → IsText s → (s == "") ≡ false
IsText-some s h = elim (Bool-cases (s == "")) [
  | inl t ↦ absurd (subst IsText ((str_iff s "").0 t) h)
  | inr f ↦ f
]

-- The text of a number: no space, plus, dash or dot in it.
abbrev pub is_part : String → Bool
is_part s = no_space s && (absent 43 s && (absent 45 s && absent 46 s))

abbrev pub dashed : String → String
dashed String.[] = ""
dashed (String.◌∷◌ c s) = join "-" (String.◌∷◌ c s)

abbrev pub built : Option String → String
built none = ""
built (some s) = join "+" s

abbrev pub no_space_in : Option String → Bool
no_space_in none = true
no_space_in (some s) = no_space s

-- Three numbers with dots between them, after a dash the pre-release if there is one, and after a
-- plus the build if there is one.
abbrev pub numbers_text : String → String → String → String
numbers_text a b c = join a (join "." (join b (join "." c)))

abbrev pub version_text : String → String → String → String → Option String → String
version_text a b c pre build = join (join (numbers_text a b c) (dashed pre)) (built build)

module _ (nums : String) (no_dash : absent 45 nums ≡ true) where
  before_dash : (pre : String) → before_sep 45 (join nums (dashed pre)) ≡ nums
  before_dash String.[] = ground (arith, join-empty nums, before_sep-absent 45 nums no_dash)
  before_dash (String.◌∷◌ c s) = before_sep-join 45 _ refl (String.◌∷◌ c s) nums no_dash

  after_dash : (pre : String) → after_sep 45 (join nums (dashed pre)) ≡ pre
  after_dash String.[] = ground (arith, join-empty nums, after_sep-absent 45 nums no_dash)
  after_dash (String.◌∷◌ c s) = after_sep-join 45 _ refl (String.◌∷◌ c s) nums no_dash

before_plus :
    (core : String) (build : Option String)
    → absent 43 core ≡ true
    → before_sep 43 (join core (built build)) ≡ core
before_plus core none h = ground (arith, join-empty core, before_sep-absent 43 core h)
before_plus core (some s) h = before_sep-join 43 _ refl s core h

absent-dashed : (pre : String) → absent 43 pre ≡ true → absent 43 (dashed pre) ≡ true
absent-dashed String.[] h = refl
absent-dashed (String.◌∷◌ c s) h = ground (arith, h)

no_space-dashed : (pre : String) → no_space pre ≡ true → no_space (dashed pre) ≡ true
no_space-dashed String.[] h = refl
no_space-dashed (String.◌∷◌ c s) h = ground (arith, h)

no_space-built : (b : Option String) → no_space_in b ≡ true → no_space (built b) ≡ true
no_space-built none h = refl
no_space-built (some s) h = ground (arith, h)

trim_space-no_space : (s : String) → no_space s ≡ true → trim_space s ≡ s
trim_space-no_space s h = ap trim_right (trim_left-no_space s h) ∙ trim_right-no_space s h

whole_some :
    (a b c pre : String) (build : Option String) → (version_text a b c pre build == "") ≡ false
whole_some String.[] b c pre build = IsText-some _ tt
whole_some (String.◌∷◌ x a) b c pre build = IsText-some _ tt

read_bare :
    (s core : String)
    → (s == "") ≡ false
    → before_sep 43 s ≡ core
    → parse_trimmed s ≡ numbers (after_sep 45 core) (split_dots (before_sep 45 core))
read_bare s core some_text e = ground (arith, some_text, e)

read_core :
    (nums pre core : String)
    → before_sep 45 core ≡ nums
    → after_sep 45 core ≡ pre
    → numbers (after_sep 45 core) (split_dots (before_sep 45 core)) ≡ numbers pre (split_dots nums)
read_core nums pre core e e' = cc

read_parts :
    (pre nums a b c : String) (x y z : ℕ)
    → split_dots nums ≡ a ∷ b ∷ c ∷ []
    → atoi a ≡ some x
    → atoi b ≡ some y
    → atoi c ≡ some z
    → numbers pre (split_dots nums) ≡ some (record { major = x; minor = y; patch = z; pre = pre })
read_parts pre nums a b c x y z e at_a at_b at_c =
    ap (numbers pre) e ∙ ground (arith, at_a, at_b, at_c)

-- Where the three numbers follow each other with dots, as texts without a space, plus, dash or dot
-- that `strconv.Atoi` takes, the pre-release has no plus and neither it nor the build has a space:
-- the version parses, to these numbers and the pre-release.
pub parse-version_text :
    (a b c pre : String) (build : Option String) (x y z : ℕ)
    → is_part a ≡ true
    → is_part b ≡ true
    → is_part c ≡ true
    → no_space pre ≡ true
    → absent 43 pre ≡ true
    → no_space_in build ≡ true
    → atoi a ≡ some x
    → atoi b ≡ some y
    → atoi c ≡ some z
    → parse (version_text a b c pre build)
      ≡ some (record { major = x; minor = y; patch = z; pre = pre })
unfolding parse
parse-version_text a b c pre build x y z ha hb hc hp hp' hb' at_a at_b at_c =
    let nums = numbers_text a b c in
    let core = join nums (dashed pre) in
    let whole = join core (built build) in
    let bare : no_space nums ≡ true =
      ground
        (arith, no_space-join a (join "." (join b (join "." c))), no_space-join b (join "." c)) in
    let no_plus : absent 43 nums ≡ true =
      ground
        (arith, absent-join 43 a (join "." (join b (join "." c))), absent-join 43 b (join "." c)) in
    let no_dash : absent 45 nums ≡ true =
      ground
        (arith, absent-join 45 a (join "." (join b (join "." c))), absent-join 45 b (join "." c)) in
    let spaceless : no_space whole ≡ true = ground (
      arith,
      no_space-join core (built build),
      no_space-join nums (dashed pre),
      no_space-dashed pre hp,
      no_space-built build hb',
    ) in
    let plusless : absent 43 core ≡ true =
      ground (arith, absent-join 43 nums (dashed pre), absent-dashed pre hp') in
    let parts : split_dots nums ≡ a ∷ b ∷ c ∷ [] =
      split_dots-join _ (join b (join "." c)) a refl (ground arith)
      ∙ ap (λ l. a ∷ l) (split_dots-join _ c b refl (ground arith))
      ∙ ap (λ l. a ∷ b ∷ l) (split_dots-absent c (ground arith)) in
    let filled : (whole == "") ≡ false = whole_some a b c pre build in
    ap parse_trimmed (trim_space-no_space whole spaceless)
    ∙ read_bare whole core filled (before_plus core build plusless)
    ∙ read_core nums pre core (before_dash nums no_dash pre) (after_dash nums no_dash pre)
    ∙ read_parts pre nums a b c x y z parts at_a at_b at_c

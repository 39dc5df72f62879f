-- ===== src/Tests/Versions.antt =====
-- Versions as clients send them.
use atlas_game_layout.Common.{none, some, ◌≡◌, ◌⊎◌, refl}
use atlas_game_layout.Version.{less, equal, compare, parse, compare_parsed, compare_pre}
use atlas_game_layout.Version.Texts.{version_text, parse-version_text}
use atlas_game_layout.Version.Laws.{AreBelow, flipped, compare-IsOrdered}

compare-IsOrdered_example :
    (compare "1.2.0-rc.1" "1.2" ≡ some less → AreBelow (parse "1.2.0-rc.1") (parse "1.2"))
    × (AreBelow (parse "1.2.0-rc.1") (parse "1.2") → compare "1.2.0-rc.1" "1.2" ≡ some less)
    × (compare "1.2" "1.2.0-rc.1" ≡ flipped (compare "1.2.0-rc.1" "1.2"))
    × (compare "1.2.0-rc.1" "1.2" ≡ some less
        → compare "1.2" "1.10.0+b7" ≡ some less
        → compare "1.2.0-rc.1" "1.10.0+b7" ≡ some less)
    × (compare "1.2.0-rc.1" "1.2" ≡ some equal → parse "1.2.0-rc.1" ≡ parse "1.2")
    × (compare "1.2.0-rc.1" "1.2" ≡ none → (parse "1.2.0-rc.1" ≡ none) ⊎ (parse "1.2" ≡ none))
compare-IsOrdered_example = compare-IsOrdered "1.2.0-rc.1" "1.2" "1.10.0+b7"

parse-version_text_example :
    parse (version_text "1" "2" "10" "rc-1.x" (some "b7"))
    ≡ some (record { major = 1; minor = 2; patch = 10; pre = "rc-1.x" })
parse-version_text_example =
    parse-version_text "1" "2" "10" "rc-1.x" (some "b7") 1 2 10 refl refl refl refl refl refl refl
      refl refl

written : version_text "1" "2" "10" "rc-1.x" (some "b7") ≡ "1.2.10-rc-1.x+b7"
written = refl

-- Numbers of a pre-release are compared as text, and an empty one counts as a release.
as_text :
    (compare "1.2.0-rc.10" "1.2.0-rc.2" ≡ some less)
    × (compare "1.2.0-" " 1.2 " ≡ some equal)
    × (compare "1.2." "1.2" ≡ none)
    × (compare "1.2.0-rc.1" "1.2" ≡ some less)
    × (compare "1.2" "1.10.0+b7" ≡ some less)
unfolding compare parse compare_parsed compare_pre
as_text = (refl, refl, refl, refl, refl)

-- ===== src/Common/Numerals.antt =====
-- `strconv.Atoi`, where its result is not negative.
use Prim.Native.Nat.{ℕ, ◌+◌, ◌-◌, ◌*◌, ◌^◌}
use Prim.Native.Char.{code}
use Prim.Native.String.{String}
use mathlib.Core.Option.{Option, none, some}
use atlas_game_layout.Common.Tests.{if◌then◌else◌, ◌==◌, nat_key, ltb, leb}

-- The value of the digits of `s` after those that make `n`.
abbrev pub digits : ℕ → String → Option ℕ
digits n String.[] = some n
digits n (String.◌∷◌ c s) =
    let rest = digits (n * 10 + (code c - 48)) s in
    if leb 48 (code c) then (if leb (code c) 57 then rest else none) else none

abbrev unsigned : String → Option ℕ
unsigned String.[] = none
unsigned (String.◌∷◌ c s) = digits 0 (String.◌∷◌ c s)

abbrev strip_plus : String → String
strip_plus String.[] = ""
strip_plus (String.◌∷◌ c s) = if code c == 43 then s else String.◌∷◌ c s

abbrev in_range : Option ℕ → Option ℕ
in_range none = none
in_range (some n) = if ltb n (2 ^ 63) then some n else none

-- A sign, digits, and a value that an int64 holds. After a minus there is a negative number or 0,
-- and none stands for both.
abbrev pub atoi : String → Option ℕ
atoi s = in_range (unsigned (strip_plus s))

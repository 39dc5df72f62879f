-- ===== src/Ticket.antt =====
-- What the match functions read of a ticket of the match-making package, and the levels of it.
use Prim.Native.String.{compare, ◌++◌ as ◌<+>◌}
use text.Mathlib.Text.{is_lt}
use atlas_game_layout.Common.{
  ℕ, String, Bool, true, false, List, [], ◌∷◌, ◌++◌, Option, none, some, length, ◌==◌, nat_key,
  string_key, if◌then◌else◌,
}
use atlas_game_layout.Common.Int.{ℤ, pos, ◌+ℤ◌, ◌-ℤ◌, scale, quot, ltb_ℤ, wrap}

-- `level` is the attribute "level" as an `int32`, where it is there and a number.
pub record Player : Type 0 where
  pub level : Option ℤ

pub record Ticket : Type 0 where
  pub id : String
  pub players : List Player
  -- What `PlayerIDs()` answers.
  pub player_ids : List String

pub record Match : Type 0 where
  pub id : String
  pub red : List String
  pub blue : List String
  pub tickets : List Ticket

-- How many players a ticket brings.
abbrev pub size : Ticket → ℕ
size t = length t.player_ids

-- The sum of the levels on `int32`.
unfoldable pub sum_levels : ℤ → List Player → ℤ
unfolding ◌+ℤ◌ wrap
sum_levels sum [] = sum
sum_levels sum (p ∷ ps) = sum_levels (elim p.level [ none ↦ sum | some a ↦ wrap 32 (sum +ℤ a) ]) ps

-- `avgLevel`, for a ticket of fewer than 2^31 players.
unfoldable pub avg_level : Ticket → ℤ
unfolding sum_levels quot
avg_level t = if size t == 0 then pos 0 else quot (sum_levels (pos 0) t.players) (size t)

-- `absDiff` on `int32`.
unfoldable pub abs_diff : ℤ → ℤ → ℤ
unfolding ◌-ℤ◌ wrap
abs_diff a b = if ltb_ℤ a b then wrap 32 (b -ℤ a) else wrap 32 (a -ℤ b)

-- `sideLevel`: the sum runs on `int64`.
unfoldable pub sum_side : ℤ → List Ticket → ℤ
unfolding avg_level ◌+ℤ◌ wrap scale
sum_side sum [] = sum
sum_side sum (t ∷ ts) = sum_side (wrap 64 (sum +ℤ scale (avg_level t) (size t))) ts

unfoldable pub side_level : List Ticket → ℕ → ℤ
unfolding sum_side quot wrap
side_level side total = if total == 0 then pos 0 else wrap 32 (quot (sum_side (pos 0) side) total)

-- `ticketPlayerIDs`.
unfoldable pub ticket_player_ids : List Ticket → List String
ticket_player_ids [] = []
ticket_player_ids (t ∷ ts) = t.player_ids ++ ticket_player_ids ts

-- `joinIDs`.
unfoldable pub join_ids : List Ticket → String
join_ids [] = ""
join_ids (t ∷ ts) = t.id <+> ("," <+> join_ids ts)

-- `m-%s-%s`.
unfoldable pub match_id : String → String → String
match_id a b = "m-" <+> (a <+> ("-" <+> b))

-- The order of `sortedTickets`: by level, and by id where the levels are equal.
unfoldable pub before : Ticket → Ticket → Bool
unfolding avg_level
before a b =
    if ltb_ℤ (avg_level a) (avg_level b)
    then true
    else if ltb_ℤ (avg_level b) (avg_level a)
    then false
    else is_lt (compare a.id b.id)

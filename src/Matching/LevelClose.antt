-- ===== src/Matching/LevelClose.antt =====
-- One against one, level_close.go.
pub mod Pairs
use atlas_game_layout.Common.{Bool, false, not, List, [], ◌∷◌, Option, none, some, if◌then◌else◌}
use atlas_game_layout.Common.Int.{ℤ, pos, ltb_ℤ}
use atlas_game_layout.Ticket.{Player, Ticket, Match, abs_diff, match_id}

-- `levelOf`: the level of the first player that has one.
unfoldable pub first_level : List Player → Option ℤ
first_level [] = none
first_level (p ∷ ps) = let rest = first_level ps in elim p.level [ none ↦ rest | some a ↦ some a ]

unfoldable pub level_of : Ticket → Option ℤ
unfolding first_level
level_of t = first_level t.players

-- Whether the two tickets may play: both have a level, and the gap is not over the limit.
unfoldable pub close_enough : ℤ → Ticket → Ticket → Bool
unfolding level_of abs_diff
close_enough max_gap a b = elim (level_of a) [
  | none ↦ false
  | some la ↦ elim (level_of b) [ none ↦ false | some lb ↦ not (ltb_ℤ max_gap (abs_diff la lb)) ]
]

-- The inner loop: the first partner of a ticket.
unfoldable pub partner : ℤ → Ticket → List Ticket → Option Ticket
unfolding close_enough
partner max_gap a [] = none
partner max_gap a (b ∷ bs) =
    let later = partner max_gap a bs in if close_enough max_gap a b then some b else later

-- The outer loop of `Run`: the first pair.
unfoldable pub first_pair : ℤ → List Ticket → Option (Ticket × Ticket)
unfolding partner
first_pair max_gap [] = none
first_pair max_gap (a ∷ rest) =
    let later = first_pair max_gap rest in
    elim (partner max_gap a rest) [ none ↦ later | some b ↦ some (a, b) ]

-- The match of a pair.
unfoldable pub pair_match : Ticket → Ticket → Match
unfolding match_id
pair_match a b = record {
  id = match_id a.id b.id;
  red = a.player_ids;
  blue = b.player_ids;
  tickets = a ∷ b ∷ [];
}

-- `Run`: one match at most.
unfoldable pub run : ℤ → List Ticket → List Match
unfolding first_pair pair_match
run max_gap tickets = elim (first_pair max_gap tickets) [
  | none ↦ []
  | some (a, b) ↦ pair_match a b ∷ []
]

-- `Validate`.
unfoldable pub validate : ℤ → Bool
validate max_gap = not (ltb_ℤ max_gap (pos 0))

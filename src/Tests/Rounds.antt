-- ===== src/Tests/Rounds.antt =====
-- A round of match-making over three tickets.
use atlas_game_layout.Common.{false, ℕ, true, List, [], ◌∷◌, some, ◌≡◌, ◌⊎◌, is_some, arith}
use atlas_game_layout.Common.Int.{pos}
use atlas_game_layout.Ticket.{Player, Ticket, Match}
use atlas_game_layout.Matching.LevelClose.{pair_match, run as run_pair}
use atlas_game_layout.Matching.LevelClose.Pairs.{NoPair, IsFirstPair, run-IsFirstPair}
use atlas_game_layout.Matching.FlexTeams.{FlexTeams, pick_side, total_players, run}
use atlas_game_layout.Matching.FlexTeams.Sides.{IsSide, Picks, pick_side_lem}
use atlas_game_layout.Matching.FlexTeams.Run.{IsRound, run-IsRound}

abbrev player : ℕ → Player
player level = record { level = some (pos level) }

abbrev tickets : List Ticket
tickets =
    record { id = "t1"; players = player 10 ∷ player 12 ∷ []; player_ids = "ann" ∷ "bob" ∷ [] }
    ∷ record { id = "t2"; players = player 11 ∷ []; player_ids = "cid" ∷ [] }
    ∷ record { id = "t3"; players = player 9 ∷ []; player_ids = "dee" ∷ [] }
    ∷ []

abbrev flex : FlexTeams
flex = record { max_gap = pos 5; max_side = pos 2 }

pick_side_lem_example :
    ((side : List Ticket) → pick_side tickets 3 ≡ some side → IsSide false 3 tickets side)
    × ((side : List Ticket)
        → Picks side tickets
        → total_players side ≡ 3
        → is_some (pick_side tickets 3) ≡ true)
pick_side_lem_example = pick_side_lem tickets 3 (omega arith)

run-IsRound_example : (ms : List Match) × (run flex tickets ≡ some ms) × IsRound flex tickets ms
run-IsRound_example = run-IsRound flex tickets

run-IsFirstPair_example :
    ((run_pair (pos 1) tickets ≡ []) × NoPair (pos 1) tickets [])
    ⊎ ((a : Ticket) × (b : Ticket) × (run_pair (pos 1) tickets ≡ pair_match a b ∷ [])
        × IsFirstPair (pos 1) tickets a b)
run-IsFirstPair_example = run-IsFirstPair (pos 1) tickets

-- ===== src/Matching/FlexTeams.antt =====
-- Two teams of equal size, flex_teams.go. A candidate is its ticket.
pub mod Sides
pub mod Form
pub mod Run
use atlas_game_layout.Common.{
  ℕ, zero, suc, ◌+◌, ◌-◌, ◌/◌, String, Bool, true, false, not, ◌&&◌, ◌||◌, List, [], ◌∷◌, ◌++◌,
  Option, none, some, keep, length, member, ◌==◌, nat_key, string_key, ltb, leb, is_some,
  if◌then◌else◌, map,
}
use atlas_game_layout.Common.Int.{ℤ, pos, pos_part, ltb_ℤ}
use atlas_game_layout.Ticket.{
  Ticket, Match, size, before, side_level, abs_diff, ticket_player_ids, join_ids, match_id,
}

pub record FlexTeams : Type 0 where
  pub max_gap : ℤ
  pub max_side : ℤ

-- `Validate`.
unfoldable pub validate : FlexTeams → Bool
validate f = not (ltb_ℤ f.max_gap (pos 0)) && ltb_ℤ (pos 0) f.max_side

-- `sort.SliceStable` with `before`, as an insertion sort: a ticket stays in front of its later equals.
unfoldable pub insert_sorted : Ticket → List Ticket → List Ticket
insert_sorted t [] = t ∷ []
insert_sorted t (u ∷ us) =
    let rest = insert_sorted t us in if before u t then u ∷ rest else t ∷ u ∷ us

unfoldable pub sorted_tickets : List Ticket → List Ticket
unfolding insert_sorted
sorted_tickets [] = []
sorted_tickets (t ∷ ts) = insert_sorted t (sorted_tickets ts)

-- `dfsSide` from an index on; `started` is `len(*out) > 0`, and the result is what is put behind
-- `*out`.
unfoldable pub dfs_side : Bool → ℕ → List Ticket → Option (List Ticket)
dfs_side started remain [] = if remain == 0 then (if started then some [] else none) else none
dfs_side started remain (t ∷ rest) =
    let skip = dfs_side started remain rest in
    let taken = dfs_side true (remain - size t) rest in
    if remain == 0
    then (if started then some [] else none)
    else if ltb remain (size t)
    then skip
    else elim taken [ none ↦ skip | some side ↦ some (t ∷ side) ]

-- `pickSide`.
unfoldable pub pick_side : List Ticket → ℕ → Option (List Ticket)
unfolding dfs_side
pick_side [] n = none
pick_side (t ∷ ts) n = dfs_side false n (t ∷ ts)

abbrev pub ids : List Ticket → List String
ids = map (λ t. t.id)

-- `exclude`.
unfoldable pub exclude : List Ticket → List Ticket → List Ticket
exclude sorted side = keep (λ t. not (member t.id (ids side))) sorted

-- `newMatch`.
unfoldable pub new_match : List Ticket → List Ticket → Match
unfolding ticket_player_ids join_ids match_id
new_match a b = record {
  id = match_id (join_ids a) (join_ids b);
  red = ticket_player_ids a;
  blue = ticket_player_ids b;
  tickets = a ++ b;
}

pub record Formed : Type 0 where
  pub side_a : List Ticket
  pub side_b : List Ticket
  pub rest : List Ticket

-- One turn of the loop of `formOne`: both sides of n players, near enough in level.
unfoldable pub try_size : FlexTeams → List Ticket → ℕ → Option Formed
unfolding pick_side exclude side_level abs_diff
try_size f sorted n = elim (pick_side sorted n) [
  | none ↦ none
  | some a ↦
      let rest = exclude sorted a in
      elim (pick_side rest n) [
        | none ↦ none
        | some b ↦
            if ltb_ℤ f.max_gap (abs_diff (side_level a n) (side_level b n))
            then none
            else some (record { side_a = a; side_b = b; rest = exclude rest b })
      ]
]

-- The loop from n down to 1.
unfoldable pub form_from : FlexTeams → List Ticket → ℕ → Option Formed
unfolding try_size
form_from f sorted zero = none
form_from f sorted (suc n) = elim (try_size f sorted (suc n)) [
  | some m ↦ some m
  | none ↦ form_from f sorted n
]

unfoldable pub total_players : List Ticket → ℕ
total_players [] = 0
total_players (t ∷ ts) = size t + total_players ts

-- The larger size that is tried: `MaxSide`, or half of the players if that is less.
unfoldable pub max_size : FlexTeams → List Ticket → ℕ
unfolding total_players
max_size f sorted =
    let half = total_players sorted / 2 in
    if ltb_ℤ (pos half) f.max_side then half else pos_part f.max_side

-- `formOne`.
unfoldable pub form_one : FlexTeams → List Ticket → Option Formed
unfolding form_from max_size
form_one f sorted = form_from f sorted (max_size f sorted)

-- The loop of `Run`, on fuel: `none` where it runs out.
unfoldable pub run_loop : FlexTeams → ℕ → List Ticket → Option (List Match)
unfolding form_one new_match
run_loop f zero remaining = none
run_loop f (suc fuel) remaining = elim (form_one f remaining) [
  | none ↦ some []
  | some m ↦ elim (run_loop f fuel m.rest) [
    | none ↦ none
    | some ms ↦ some (new_match m.side_a m.side_b ∷ ms)
  ]
]

-- `Run` on the tickets of the candidates.
unfoldable pub run : FlexTeams → List Ticket → Option (List Match)
unfolding run_loop sorted_tickets
run f tickets =
    if ltb (length tickets) 2 || not (ltb_ℤ (pos 0) f.max_side)
    then some []
    else run_loop f (suc (length tickets)) (sorted_tickets tickets)

-- ===== src/Matching/FlexTeams/Run.antt =====
-- A whole round, `Run` of flex_teams.go.
use atlas_game_layout.Common.{
  ℕ, zero, suc, ◌+◌, ◌≤◌, ◌<◌, String, not, ◌||◌, List, [], ◌∷◌, ◌++◌, Option, some, ◌≡◌, refl,
  if_elim, length, length-append, All, string_key, ltb, arith, inl, inr,
}
use atlas_game_layout.Common.Int.{pos, ◌≤ℤ◌, ltb_ℤ}
use atlas_game_layout.Ticket.{Ticket, Match, ticket_player_ids, side_level, abs_diff}
use atlas_game_layout.Matching.FlexTeams.{
  FlexTeams, Formed, insert_sorted, sorted_tickets, new_match, total_players, max_size, run_loop,
  run,
}
use atlas_game_layout.Matching.FlexTeams.Form.{
  count, count-append, count-split, length-exclude, IsFormed, IsLargest, form_one_lem,
}

-- The tickets of the matches of a round.
unfoldable pub matched : List Match → List Ticket
matched [] = []
matched (m ∷ ms) = m.tickets ++ matched ms

length-ticket_player_ids : (ts : List Ticket) → length (ticket_player_ids ts) ≡ total_players ts
unfolding ticket_player_ids total_players
length-ticket_player_ids [] = refl
length-ticket_player_ids (t ∷ ts) =
    omega (arith, length-append t.player_ids (ticket_player_ids ts), length-ticket_player_ids ts)

-- A match of two sides with n players each, n in the limit, that are near in level.
pub record IsFair (f : FlexTeams) (m : Match) : Type 0 where
  pub players : ℕ
  pub side_a : List Ticket
  pub side_b : List Ticket
  pub positive : 0 < players
  pub within : pos players ≤ℤ f.max_side
  pub red : length m.red ≡ players
  pub blue : length m.blue ≡ players
  pub red_is : m.red ≡ ticket_player_ids side_a
  pub blue_is : m.blue ≡ ticket_player_ids side_b
  pub tickets : m.tickets ≡ side_a ++ side_b
  pub near : abs_diff (side_level side_a players) (side_level side_b players) ≤ℤ f.max_gap

count-insert_sorted :
    (q : String) (t : Ticket) (ts : List Ticket) → count q (insert_sorted t ts) ≡ count q (t ∷ ts)
unfolding count insert_sorted
count-insert_sorted q t [] = refl
count-insert_sorted q t (u ∷ us) = ground (arith, count-insert_sorted q t us)

count-sorted_tickets : (q : String) (ts : List Ticket) → count q (sorted_tickets ts) ≡ count q ts
unfolding count sorted_tickets
count-sorted_tickets q [] = refl
count-sorted_tickets q (t ∷ ts) =
    ground (arith, count-insert_sorted q t (sorted_tickets ts), count-sorted_tickets q ts)

length-insert_sorted :
    (t : Ticket) (ts : List Ticket) → length (insert_sorted t ts) ≡ suc (length ts)
unfolding insert_sorted
length-insert_sorted t [] = refl
length-insert_sorted t (u ∷ us) = ground (arith, length-insert_sorted t us)

length-sorted_tickets : (ts : List Ticket) → length (sorted_tickets ts) ≡ length ts
unfolding sorted_tickets
length-sorted_tickets [] = refl
length-sorted_tickets (t ∷ ts) =
    omega (arith, length-insert_sorted t (sorted_tickets ts), length-sorted_tickets ts)

max_size-le :
    (f : FlexTeams) (ts : List Ticket) (n : ℕ) → 0 < n → n ≤ max_size f ts → pos n ≤ℤ f.max_side
unfolding max_size
max_size-le f ts n p h = ground arith

IsLargest-IsFair :
    (f : FlexTeams) (ts : List Ticket) (n : ℕ) (m : Formed)
    → IsLargest f ts (max_size f ts) n m
    → IsFair f (new_match m.side_a m.side_b)
unfolding new_match
IsLargest-IsFair f ts n m is = record {
  players = n;
  side_a = m.side_a;
  side_b = m.side_b;
  positive = is.positive;
  within = max_size-le f ts n is.positive is.within;
  red = omega (arith, length-ticket_player_ids m.side_a, is.formed.first.1);
  blue = omega (arith, length-ticket_player_ids m.side_b, is.formed.second.1);
  red_is = refl;
  blue_is = refl;
  tickets = refl;
  near = ground (arith, is.formed.near);
}

-- What a match takes out of the tickets, and what it leaves.
IsFormed-count :
    (q : String) (f : FlexTeams) (ts : List Ticket) (n : ℕ) (m : Formed)
    → IsFormed f ts n m
    → count q (m.side_a ++ m.side_b) + count q m.rest ≤ count q ts
IsFormed-count q f ts n m is = rw is.left (
    omega (
      arith,
      count-append q m.side_a m.side_b,
      count-split q is.first.0,
      count-split q is.second.0,
    ))

IsFormed-shorter :
    (f : FlexTeams) (ts : List Ticket) (n : ℕ) (m : Formed)
    → IsFormed f ts n m
    → length m.rest < length ts
IsFormed-shorter f ts n m is =
    rw is.left (
      ground
        (arith, length-exclude is.first.0, length-exclude is.second.0, is.first.2, is.second.2))

-- A round over the tickets that gave the matches.
pub record IsRound (f : FlexTeams) (ts : List Ticket) (ms : List Match) : Type 0 where
  pub fair : All (IsFair f) ms
  pub once : (q : String) → count q (matched ms) ≤ count q ts

run_loop-IsRound :
    (f : FlexTeams) (fuel : ℕ) (ts : List Ticket)
    → length ts < fuel
    → (ms : List Match) × (run_loop f fuel ts ≡ some ms) × IsRound f ts ms
unfolding run_loop matched count
run_loop-IsRound f zero ts h = absurd (omega arith)
run_loop-IsRound f (suc fuel) ts h = elim (form_one_lem f ts) [
  | inl (stop, _) ↦ ([], rw (stop, run_loop), record { fair = tt; once = λ q. omega arith })
  | inr (n, m, found, is) ↦
      let short = IsFormed-shorter f ts n m is.formed in
      let (ms, e, rest) = run_loop-IsRound f fuel m.rest (omega arith) in
      (
        new_match m.side_a m.side_b ∷ ms,
        rw (found, run_loop) (rw e),
        record {
          fair = (IsLargest-IsFair f ts n m is, rest.fair);
          once = λ q. omega (
            arith,
            count-append q (m.side_a ++ m.side_b) (matched ms),
            IsFormed-count q f ts n m is.formed,
            rest.once q,
          );
        },
      )
]

none_matched : (q : String) (ts : List Ticket) → count q (matched []) ≤ count q ts
unfolding matched count
none_matched q ts = omega arith

-- A round always ends with matches: each has the same number of players on both sides, one at
-- least and `max_side` at most, and levels no further apart than `max_gap`; and no ticket id is
-- in the matches more often than in the candidates.
pub run-IsRound :
    (f : FlexTeams) (tickets : List Ticket)
    → (ms : List Match) × (run f tickets ≡ some ms) × IsRound f tickets ms
unfolding run
run-IsRound f tickets =
    let (ms, e, round) =
      run_loop-IsRound f (suc (length tickets)) (sorted_tickets tickets)
        (omega (arith, length-sorted_tickets tickets)) in
    if_elim (λ (o : Option (List Match)). (ms : List Match) × (o ≡ some ms) × IsRound f tickets ms)
      (ltb (length tickets) 2 || not (ltb_ℤ (pos 0) f.max_side))
      (λ _. ([], refl, record { fair = tt; once = λ q. none_matched q tickets }))
      λ _. (
        ms,
        e,
        record {
          fair = round.fair;
          once = λ q. omega (arith, round.once q, count-sorted_tickets q tickets);
        },
      )

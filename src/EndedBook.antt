-- ===== src/EndedBook.antt =====
-- The book of ended battles, services/battle/internal/stream/ended.go. Times are nanoseconds; the
-- clock `b.now()` is an argument; a set of players is a list that is scanned.
pub mod Claims
use atlas_game_layout.Common.{
  ℕ, ◌+◌, ◌*◌, String, Bool, true, false, not, List, [], ◌∷◌, Option, none, some, Map, lookup,
  insert, delete, filter_map, keep, member, length, ◌==◌, string_key, nat_key, ltb, leb, is_some,
  if◌then◌else◌,
}

-- 5 minutes.
abbrev pub default_ended_ttl : ℕ
default_ended_ttl = 5 * 60 * 1000000000

abbrev pub max_end_replays : ℕ
max_end_replays = 5

abbrev pub end_retries : ℕ
end_retries = 2

-- `EndedTTL`, for durations that are not negative.
unfoldable pub ended_ttl : ℕ → ℕ → ℕ
ended_ttl ticket_ttl offline_timeout =
    let ttl = ticket_ttl + offline_timeout in if ttl == 0 then default_ended_ttl else ttl

pub record Entry : Type 0 where
  pub winner : String
  pub players : List String
  pub expire_at : ℕ
  pub replays : Map String ℕ

unfoldable pub expired_at : Entry → ℕ → Bool
expired_at e now = not (ltb now e.expire_at)

pub record EndedBook : Type 0 where
  pub ttl : ℕ
  pub entries : Map String Entry

unfoldable pub new_ended_book : ℕ → EndedBook
new_ended_book ttl = record { ttl = if ttl == 0 then default_ended_ttl else ttl; entries = [] }

unfoldable pub sweep_locked : EndedBook → ℕ → EndedBook
unfolding expired_at
sweep_locked b now = record b { entries = filter_map (λ id e. not (expired_at e now)) b.entries }

abbrev pub new_entry : ℕ → String → List String → Entry
new_entry expire_at winner players = record {
  winner = winner;
  players = keep (λ p. not (p == "")) players;
  expire_at = expire_at;
  replays = [];
}

-- `Record`.
unfoldable pub record_end : EndedBook → ℕ → String → String → List String → EndedBook
unfolding sweep_locked
record_end b now battle_id winner players =
    if battle_id == ""
    then b
    else let swept = sweep_locked b now in
      elim (lookup battle_id swept.entries) [
        | some e ↦ swept
        | none ↦ record swept {
          entries = insert battle_id (new_entry (now + swept.ttl) winner players) swept.entries;
        }
      ]

-- `Winner`: an entry that has expired is dropped on the way.
unfoldable pub winner_of : EndedBook → ℕ → String → EndedBook × Option String
unfolding expired_at
winner_of b now battle_id =
    if battle_id == "" then (b, none) else elim (lookup battle_id b.entries) [
      | none ↦ (b, none)
      | some e ↦
          if expired_at e now
          then (record b { entries = delete battle_id b.entries }, none)
          else (b, some e.winner)
    ]

-- `Ended`.
unfoldable pub ended : EndedBook → ℕ → String → EndedBook × Bool
unfolding winner_of
ended b now battle_id = let (b', w) = winner_of b now battle_id in (b', is_some w)

-- `e.replays[playerID]`: 0 where there is none.
abbrev pub count_of : Option ℕ → ℕ
count_of none = 0
count_of (some n) = n

-- The entry is shared, so the new count is written back under its battle.
unfoldable pub claim_entry : EndedBook → String → String → Entry → EndedBook × Option String
claim_entry b battle_id player_id e =
    let used = count_of (lookup player_id e.replays) in
    if not (member player_id e.players)
    then (b, none)
    else if leb max_end_replays used
    then (b, none)
    else (
      record b {
        entries =
            insert battle_id (record e { replays = insert player_id (used + 1) e.replays })
              b.entries;
      },
      some e.winner,
    )

-- `Claim`.
unfoldable pub claim : EndedBook → ℕ → String → String → EndedBook × Option String
unfolding expired_at claim_entry
claim b now battle_id player_id =
    if battle_id == ""
    then (b, none)
    else if player_id == ""
    then (b, none)
    else elim (lookup battle_id b.entries) [
      | none ↦ (b, none)
      | some e ↦
          if expired_at e now
          then (record b { entries = delete battle_id b.entries }, none)
          else claim_entry b battle_id player_id e
    ]

-- `Len`.
unfoldable pub len : EndedBook → ℕ → EndedBook × ℕ
unfolding sweep_locked
len b now = let swept = sweep_locked b now in (swept, length swept.entries)

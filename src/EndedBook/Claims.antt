-- ===== src/EndedBook/Claims.antt =====
-- Recording a result, reading it and claiming it, over runs of the book of ended.go.
use atlas_game_layout.Common.{
  ℕ, ◌+◌, ◌-◌, ◌≤◌, String, not, List, [], ◌∷◌, Option, none, some, ◌≡◌, ◌≢◌, lookup, insert,
  lookup-insert, lookup-delete, lookup-filter_map, Unique, filter_map-Unique, insert-Unique,
  delete-Unique, ◌==◌, string_key, str_iff, ltb, is_some, if◌then◌else◌, arith, Option-cases, inl,
  inr,
}
use atlas_game_layout.EndedBook.{
  EndedBook, Entry, expired_at, sweep_locked, record_end, winner_of, ended, count_of, claim_entry,
  claim, len, max_end_replays, new_entry,
}

lookup-sweep :
    (b : EndedBook) (now : ℕ) (id : String)
    → Unique b.entries
    → lookup id (sweep_locked b now).entries ≡ elim (lookup id b.entries) [
      | none ↦ none
      | some e ↦ if expired_at e now then none else some e
    ]
unfolding sweep_locked
lookup-sweep b now id u =
    ground (arith, lookup-filter_map id (λ k e. not (expired_at e now)) b.entries u)

-- Who reads as the winner at a time, of a result with that expiry.
abbrev pub until : ℕ → ℕ → String → Option String
until later expire_at winner = if ltb later expire_at then some winner else none

-- On a book without doubles and under an id that is not empty, the first result that is recorded
-- stands: where the battle has a live entry, its winner is read until that entry expires; else the
-- new winner is read until the lifetime of the book has passed. From then on nobody is read.
pub winner_of-record_end :
    (b : EndedBook) (now later : ℕ) (id winner : String) (players : List String)
    → Unique b.entries
    → id ≢ ""
    → (winner_of (record_end b now id winner players) later id).1 ≡ elim (lookup id b.entries) [
      | none ↦ until later (now + b.ttl) winner
      | some e ↦
          if ltb now e.expire_at
          then until later e.expire_at e.winner
          else until later (now + b.ttl) winner
    ]
unfolding record_end winner_of sweep_locked
winner_of-record_end b now later id winner players u h = ground (
  arith,
  lookup-sweep b now id u,
  str_iff id "",
  str_iff id id,
  lookup-insert id id (new_entry (now + b.ttl) winner players) (sweep_locked b now).entries,
)

-- How many notices a player may still be sent for a battle.
abbrev quota : Option Entry → String → ℕ
quota none p = 0
quota (some e) p = max_end_replays - count_of (lookup p e.replays)

abbrev hits : Option String → String → String → String → String → ℕ
hits none id id' p p' = 0
hits (some w) id id' p p' = if id == id' then (if p == p' then 1 else 0) else 0

claim-quota :
    (b : EndedBook) (now : ℕ) (id p id' p' : String)
    → let (b', r) = claim b now id' p' in
      hits r id id' p p' + quota (lookup id b'.entries) p ≤ quota (lookup id b.entries) p
unfolding claim claim_entry
claim-quota b now id p id' p' = elim (Option-cases (lookup id' b.entries)) [
  | inl e ↦ ground arith
  | inr (e, at) ↦
      let used = insert p' (count_of (lookup p' e.replays) + 1) e.replays in
      ground (
        arith,
        str_iff id id',
        str_iff id' id,
        str_iff p p',
        str_iff p' p,
        lookup-delete id' id b.entries,
        lookup-insert id' id (record e { replays = used }) b.entries,
        lookup-insert p' p (count_of (lookup p' e.replays) + 1) e.replays,
      )
]

-- What happens to a book between two records of results: claims of any players, reads and sweeps.
pub data Call : Type 0 where
  claims : String → String → Call
  reads : String → Call
  counts : Call

unfoldable pub step : EndedBook → ℕ × Call → EndedBook × Option (String × String)
unfolding claim ended len
step b (now, claims id p) =
    let (b', r) = claim b now id p in (b', if is_some r then some (id, p) else none)
step b (now, reads id) = ((ended b now id).0, none)
step b (now, counts) = ((len b now).0, none)

abbrev sent_to : Option (String × String) → String → String → ℕ
sent_to none id p = 0
sent_to (some (id', p')) id p = if id == id' then (if p == p' then 1 else 0) else 0

-- How many notices a player is sent for a battle in a run.
unfoldable pub notices : EndedBook → List (ℕ × Call) → String → String → ℕ
notices b [] id p = 0
notices b (c ∷ cs) id p = let (b', r) = step b c in sent_to r id p + notices b' cs id p

claim-Unique :
    (b : EndedBook) (now : ℕ) (id p : String)
    → Unique b.entries
    → Unique (claim b now id p).0.entries
unfolding claim claim_entry
claim-Unique b now id p u = elim (Option-cases (lookup id b.entries)) [
  | inl e ↦ ground arith
  | inr (e, at) ↦
      let used = insert p (count_of (lookup p e.replays) + 1) e.replays in
      ground (
        arith,
        delete-Unique id b.entries u,
        insert-Unique id (record e { replays = used }) b.entries u,
      )
]

step_keeps :
    (b : EndedBook) (c : ℕ × Call) (id p : String)
    → Unique b.entries
    → Unique (step b c).0.entries
      × (sent_to (step b c).1 id p + quota (lookup id (step b c).0.entries) p
          ≤ quota (lookup id b.entries) p)
unfolding step ended winner_of len
step_keeps b (now, claims id' p') id p u =
    (claim-Unique b now id' p' u, ground (arith, claim-quota b now id p id' p'))
step_keeps b (now, reads id') id p u = elim (Option-cases (lookup id' b.entries)) [
  | inl e ↦ (ground arith, ground arith)
  | inr (e, at) ↦ (
    ground (arith, delete-Unique id' b.entries u),
    ground (arith, str_iff id' id, lookup-delete id' id b.entries),
  )
]
step_keeps b (now, counts) id p u = (
  filter_map-Unique (λ k e. not (expired_at e now)) b.entries u,
  ground (arith, lookup-sweep b now id u),
)

notices-le-quota :
    (b : EndedBook) (cs : List (ℕ × Call)) (id p : String)
    → Unique b.entries
    → notices b cs id p ≤ quota (lookup id b.entries) p
unfolding notices
notices-le-quota b [] id p u = omega arith
notices-le-quota b (c ∷ cs) id p u =
    let (u', q) = step_keeps b c id p u in
    omega (arith, q, notices-le-quota (step b c).0 cs id p u')

-- On a book without doubles and between two records of results, a player is sent the result of a
-- battle five times at most, in whatever order claims, reads and sweeps come and at whatever
-- times.
pub notices-le-max :
    (b : EndedBook) (cs : List (ℕ × Call)) (id p : String)
    → Unique b.entries
    → notices b cs id p ≤ max_end_replays
notices-le-max b cs id p u = ground (arith, notices-le-quota b cs id p u)

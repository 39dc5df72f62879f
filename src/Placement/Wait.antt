-- ===== src/Placement/Wait.antt =====
-- The wait of `refresh` of placement.go.
use atlas_game_layout.Common.{
  length, ℕ, zero, suc, ◌+◌, ◌*◌, ◌≤◌, true, false, List, Option, none, some, ◌≡◌, ◌⊎◌, inl, inr,
  refl, nat_key, string_key, if_elim, arith,
}
use atlas_game_layout.Placement.Candidates.{Node, CandidateSet, is_ready, sig, query}
use atlas_game_layout.Placement.Plans.{
  Config, Planner, Round, stops, known, Awaited, not_found, got, awaited_or, await, refreshed,
  refresh, store, warn_sole,
}

-- Between two turns of the loop the clock moves on by the pause.
abbrev pub Ticks : ℕ → (ℕ → Round) → Type 0
Ticks poll rounds = (n : ℕ) → (rounds n).now + poll ≤ (rounds (suc n)).now

-- Turn `n` of the loop waits on: the registry answers with fewer candidates than its instances,
-- not those of the last snapshot, and neither the caller nor the deadline ends the wait.
abbrev pub WaitsOn : Config → Planner → ℕ → (ℕ → Round) → ℕ → Type 0
WaitsOn cfg p deadline rounds n =
    (set : CandidateSet) × (query cfg.parse cfg.local (rounds n).services (rounds n).frames
      ≡ some set)
    × (suc (length set.nodes) ≤ set.registered)
    × (known p (sig set.nodes) ≡ false)
    × ((rounds n).ended ≡ false)
    × (suc (rounds n).now ≤ deadline)

-- So did each turn before `n`.
abbrev pub WaitedTo : Config → Planner → ℕ → (ℕ → Round) → ℕ → Type 0
WaitedTo cfg p deadline rounds zero = Unit
WaitedTo cfg p deadline rounds (suc n) =
    WaitsOn cfg p deadline rounds n × WaitedTo cfg p deadline rounds n

-- What ended the wait, in the first turn that does not wait on: the candidates are as many as the
-- registered instances, or were those of the last snapshot, or the caller has no time left, or the
-- deadline has come; or the registry failed.
abbrev pub IsAwaited : Config → Planner → ℕ → (ℕ → Round) → Awaited → Type 0
IsAwaited cfg p deadline rounds not_found =
    (n : ℕ) × (query cfg.parse cfg.local (rounds n).services (rounds n).frames ≡ none)
    × WaitedTo cfg p deadline rounds n
IsAwaited cfg p deadline rounds (got set n) =
    (query cfg.parse cfg.local (rounds n).services (rounds n).frames ≡ some set)
    × ((set.registered ≤ length set.nodes)
        ⊎ ((known p (sig set.nodes) ≡ true)
            ⊎ (((rounds n).ended ≡ true) ⊎ (deadline ≤ (rounds n).now))))
    × WaitedTo cfg p deadline rounds n

module _ (cfg : Config) (p : Planner) (deadline poll : ℕ) (rounds : ℕ → Round) where
  abbrev Ends : Option Awaited → Type 0
  Ends o = (w : Awaited) × (o ≡ some w) × IsAwaited cfg p deadline rounds w

  stop_reason :
      (n : ℕ) (set : CandidateSet)
      → stops p deadline set (rounds n) ≡ true
      → (set.registered ≤ length set.nodes)
        ⊎ ((known p (sig set.nodes) ≡ true)
            ⊎ (((rounds n).ended ≡ true) ⊎ (deadline ≤ (rounds n).now)))
  unfolding stops is_ready
  stop_reason n set t = ground arith

  wait_reason :
      (n : ℕ) (set : CandidateSet)
      → query cfg.parse cfg.local (rounds n).services (rounds n).frames ≡ some set
      → stops p deadline set (rounds n) ≡ false
      → WaitsOn cfg p deadline rounds n
  unfolding stops is_ready
  wait_reason n set at f = (set, at, ground arith, ground arith, ground arith, ground arith)

  late_stops :
      (n : ℕ) (set : CandidateSet)
      → deadline ≤ (rounds n).now
      → stops p deadline set (rounds n) ≡ true
  unfolding stops
  late_stops n set late = ground arith

  turn-Ends :
      (n : ℕ) (rest : Option Awaited) (q : Option CandidateSet)
      → WaitedTo cfg p deadline rounds n
      → query cfg.parse cfg.local (rounds n).services (rounds n).frames ≡ q
      → ((set : CandidateSet)
          → query cfg.parse cfg.local (rounds n).services (rounds n).frames ≡ some set
          → stops p deadline set (rounds n) ≡ false
          → Ends rest)
      → Ends (awaited_or p deadline (rounds n) n rest q)
  turn-Ends n rest none before at later = (not_found, refl, (n, at, before))
  turn-Ends n rest (some set) before at later =
      if_elim Ends (stops p deadline set (rounds n)) {x = some (got set n)} {y = rest}
        (λ t. (got set n, refl, (at, stop_reason n set t, before))) (λ f. later set at f)

  await-IsAwaited :
      (n k : ℕ)
      → Ticks poll rounds
      → WaitedTo cfg p deadline rounds n
      → deadline ≤ (rounds n).now + k * poll
      → Ends (await cfg p deadline rounds n (suc k))
  unfolding await
  await-IsAwaited n zero ticks before soon =
      turn-Ends n none (query cfg.parse cfg.local (rounds n).services (rounds n).frames) before refl
        λ set at f. absurd (ground (arith, f, late_stops n set (omega (arith, soon))))
  await-IsAwaited n (suc k) ticks before soon =
      turn-Ends n (await cfg p deadline rounds (suc n) (suc k))
        (query cfg.parse cfg.local (rounds n).services (rounds n).frames) before refl
        λ set at f.
          await-IsAwaited (suc n) k ticks (wait_reason n set at f, before)
            (omega (arith, soon, ticks n))

-- What `refresh` leaves: the old snapshot where the registry fails in some turn; otherwise the
-- candidates of the last turn, which are stored.
abbrev pub IsRefreshed : Config → Planner → ℕ → (ℕ → Round) → Planner × List Node → Type 0
IsRefreshed cfg p deadline rounds (p', nodes) =
    ((p' ≡ p) × (nodes ≡ p.snapshot) × IsAwaited cfg p deadline rounds not_found)
    ⊎ ((set : CandidateSet) × (n : ℕ) × (nodes ≡ set.nodes)
        × (p'.snapshot ≡ set.nodes)
        × (p'.known_sig ≡ sig set.nodes)
        × (p'.turn ≡ p.turn)
        × IsAwaited cfg p deadline rounds (got set n))

refreshed-IsRefreshed :
    (cfg : Config) (p : Planner) (deadline : ℕ) (rounds : ℕ → Round) (w : Awaited)
    → IsAwaited cfg p deadline rounds w
    → (r : Planner × List Node) × (refreshed p rounds (some w) ≡ some r)
      × IsRefreshed cfg p deadline rounds r
unfolding warn_sole store
refreshed-IsRefreshed cfg p deadline rounds not_found h =
    ((p, p.snapshot), refl, inl (refl, refl, h))
refreshed-IsRefreshed cfg p deadline rounds (got set n) h = (
  (warn_sole (store p set (rounds n).stored_at) set, set.nodes),
  refl,
  inr (set, n, refl, refl, refl, refl, h),
)

-- A refresh comes to its end: where the clock moves on by the pause between two turns of the loop,
-- as many turns as the pause fits into the longest wait, and one more, are enough. Its candidates
-- are those of the last turn, which go into the snapshot and leave the turn of the rotation as it
-- is; a failure of the registry keeps the old snapshot. The last turn is the first in which the
-- registry fails, the candidates are as many as the registered instances or were those of the last
-- snapshot, or the caller or the deadline ends the wait: none of these holds in a turn before it.
pub refresh-IsRefreshed :
    (cfg : Config) (p : Planner) (rounds : ℕ → Round) (started poll k : ℕ)
    → Ticks poll rounds
    → started ≤ (rounds 0).now
    → cfg.ready_timeout ≤ k * poll
    → (r : Planner × List Node) × (refresh cfg p rounds started (suc k) ≡ some r)
      × IsRefreshed cfg p (started + cfg.ready_timeout) rounds r
unfolding refresh
refresh-IsRefreshed cfg p rounds started poll k ticks le enough =
    let deadline = started + cfg.ready_timeout in
    let (w, at, h) =
      await-IsAwaited cfg p deadline poll rounds 0 k ticks tt (omega (arith, le, enough)) in
    rw (at) (refreshed-IsRefreshed cfg p deadline rounds w h)

-- ===== src/Resolver/Closed.antt =====
-- The end of the resolver of watchcache.go, with calls that are still under way.
use atlas_game_layout.Common.{
  not, sym, filter_map, ℕ, String, true, false, List, [], ◌∷◌, none, ◌≡◌, refl, ap, lookup, nat_key,
  string_key, arith,
}
use atlas_game_layout.Resolver.State.{Resolver}
use atlas_game_layout.Resolver.OwnerCache.{
  lookup_owner, store_owner, begin_owner_watch, fail_owner_watch, attach_owner_watch,
  ensure_owner_watch, on_owner_change,
}
use atlas_game_layout.Resolver.FrameCache.{
  watches, store_frames, begin_frame_watch, fail_frame_watch, attach_frame_watch,
  ensure_frame_watch, sweep, close, is_live,
}
use atlas_game_layout.Resolver.Runs.{
  Act, step, run, all_watches, looks_up, stores, begins, fails, attaches, ensures, changes, lists,
  frame_begins, frame_fails, frame_attaches, ensures_frames, sweeps, closes,
}

-- It is closed and holds nothing.
abbrev pub IsShut : Resolver → Type 0
IsShut r = (r.closed ≡ true) × (r.owners ≡ []) × (r.snapshot ≡ none) × (r.frame_watch ≡ none)

abbrev IsQuiet : Resolver × List ℕ × List ℕ → Type 0
IsQuiet (r, opened, stopped) = IsShut r × (opened ≡ stopped)

nothing_at : (b : String) (r : Resolver) → IsShut r → lookup b r.owners ≡ none
nothing_at b r h = ap (lookup b) h.1

step-IsQuiet : (r : Resolver) (a : Act) → IsShut r → IsQuiet (step r a)
unfolding step lookup_owner store_owner begin_owner_watch fail_owner_watch attach_owner_watch
    ensure_owner_watch on_owner_change store_frames begin_frame_watch fail_frame_watch
    attach_frame_watch ensure_frame_watch sweep close
step-IsQuiet r (looks_up b now) h = ground (arith, nothing_at b r h)
step-IsQuiet r (stores b owner started) h = ground (arith, nothing_at b r h)
step-IsQuiet r (begins b now) h = ground arith
step-IsQuiet r (fails b now) h = ground (arith, nothing_at b r h)
step-IsQuiet r (attaches b w) h = ground (arith, nothing_at b r h)
step-IsQuiet r (ensures b now failed_at o) h = ground arith
step-IsQuiet r (changes b owner now) h = ground (arith, nothing_at b r h)
step-IsQuiet r (lists list now) h = ground arith
step-IsQuiet r (frame_begins now) h = ground arith
step-IsQuiet r (frame_fails now) h = ground arith
step-IsQuiet r (frame_attaches w) h = ground arith
step-IsQuiet r (ensures_frames now failed_at o) h = ground arith
step-IsQuiet r (sweeps now) h = (
  (h.0, ap (filter_map (is_live now)) h.1, h.2, h.3),
  sym (ap (λ m. watches (filter_map (λ b e. not (is_live now b e)) m)) h.1),
)
step-IsQuiet r closes h = ground arith

run-IsQuiet : (r : Resolver) (acts : List Act) → IsShut r → IsQuiet (run r acts)
unfolding run
run-IsQuiet r [] h = (h, refl)
run-IsQuiet r (a ∷ acts) h =
    let (shut, same) = step-IsQuiet r a h in
    let (shut', same') = run-IsQuiet (step r a).0 acts shut in (shut', cc (same, same'))

abbrev emptied : Resolver → Resolver
emptied r = record r { owners = []; snapshot = none; frame_watch = none; closed = true }

close_lem : (r : Resolver) → r.closed ≡ false → close r ≡ (emptied r, all_watches r)
unfolding close
close_lem r h = ground arith

-- Closing an open resolver cancels every watch that is held, and it stays empty whatever calls are
-- still under way and in whatever order their sections come: nothing is cached again, and each
-- watch that is still opened is cancelled at once.
pub run-close :
    (r : Resolver) (acts : List Act)
    → r.closed ≡ false
    → let (r', stopped) = close r in
      let (r'', opened, cancelled) = run r' acts in
      (stopped ≡ all_watches r) × IsShut r'' × (opened ≡ cancelled)
run-close r acts h =
    let (shut, same) = run-IsQuiet (emptied r) acts (refl, refl, refl, refl) in
    rw (close_lem r h) (refl, shut, same)

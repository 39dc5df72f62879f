-- ===== src/Resolver/Watches.antt =====
-- The watches that the resolver of watchcache.go opens and cancels.
use atlas_game_layout.Common.{
  List, [], ◌∷◌, Unique, All, some, false, str_iff, lookup-insert, true, ◌∷◌, All, Option,
  held-delete, held-filter_map, Unique, List, ℕ, ◌+◌, String, ◌≡◌, lookup, held_at, held-insert,
  times, to_list, times-append, nat_key, string_key, arith, Option-cases, inl, inr,
}
use atlas_game_layout.Resolver.Instances.{Instance}
use atlas_game_layout.Resolver.State.{watch_retry_interval, new_resolver, Resolver, OwnerEntry}
use atlas_game_layout.Resolver.OwnerCache.{
  new_entry, attach_owner_watch, fail_owner_watch, begin_owner_watch, on_owner_change,
  ensure_owner_watch, lookup_owner, store_owner, put,
}
use atlas_game_layout.Resolver.FrameCache.{
  store_frames, attach_frame_watch, is_live, fail_frame_watch, begin_frame_watch,
  ensure_frame_watch, close, sweep, watches, entry_watch,
}
use atlas_game_layout.Resolver.Runs.{
  run, step-Unique, looks_up, stores, begins, fails, attaches, ensures, changes, lists,
  frame_begins, frame_fails, frame_attaches, ensures_frames, sweeps, closes, Act, step, all_watches,
}

-- How often a watch is held.
abbrev holds : ℕ → Resolver → ℕ
holds w r = times w (watches r.owners) + times w (to_list r.frame_watch)

holds_lem : (w : ℕ) (r : Resolver) → times w (all_watches r) ≡ holds w r
holds_lem w r = times-append w (watches r.owners) (to_list r.frame_watch)

-- An entry that takes another's place keeps what is held, where it has the other's watch.
holds-put :
    (w : ℕ) (r : Resolver) (b : String) (e : OwnerEntry)
    → times w (held_at entry_watch (lookup b r.owners)) ≡ times w (entry_watch e)
    → holds w (put r b e) ≡ holds w r
holds-put w r b e same = omega (arith, same, held-insert entry_watch w b e r.owners)

holds-lookup_owner :
    (w : ℕ) (r : Resolver) (b : String) (now : ℕ) → holds w (lookup_owner r b now).0 ≡ holds w r
unfolding lookup_owner
holds-lookup_owner w r b now = elim (Option-cases (lookup b r.owners)) [
  | inl none_yet ↦ ground arith
  | inr (e, at) ↦ ground (arith, holds-put w r b (record e { seen = now }))
]

holds-store_owner :
    (w : ℕ) (r : Resolver) (b owner : String) (started : ℕ)
    → holds w (store_owner r b owner started) ≡ holds w r
unfolding store_owner
holds-store_owner w r b owner started = elim (Option-cases (lookup b r.owners)) [
  | inl none_yet ↦ ground arith
  | inr (e, at) ↦ ground (arith, holds-put w r b (record e { owner = owner; seen = started }))
]

abbrev IsBalanced : ℕ → Resolver → Resolver × List ℕ × List ℕ → Type 0
IsBalanced w r (r', opened, stopped) = times w opened + holds w r ≡ times w stopped + holds w r'

ensure_balance :
    (w : ℕ) (r : Resolver) (b : String) (now failed_at : ℕ) (o : Option ℕ)
    → IsBalanced w r (step r (ensures b now failed_at o))
unfolding step ensure_owner_watch begin_owner_watch fail_owner_watch attach_owner_watch new_entry
ensure_balance w r b now failed_at o = elim (Option-cases (lookup b r.owners)) [
  | inl none_yet ↦
      let e : OwnerEntry = record (new_entry now) { starting = true } in
      let r1 = put r b (new_entry now) in
      let r2 = put r1 b e in
      elim (Option-cases o) [
        | inl failed ↦ ground (
          arith,
          lookup-insert b b (new_entry now) r.owners,
          lookup-insert b b e r1.owners,
          str_iff b b,
          held-insert entry_watch w b (new_entry now) r.owners,
          held-insert entry_watch w b e r1.owners,
          held-insert entry_watch w b
              (record e { starting = false; retry_at = failed_at + watch_retry_interval })
              r2.owners,
        )
        | inr (n, opened) ↦ ground (
          arith,
          lookup-insert b b (new_entry now) r.owners,
          lookup-insert b b e r1.owners,
          str_iff b b,
          held-insert entry_watch w b (new_entry now) r.owners,
          held-insert entry_watch w b e r1.owners,
          held-insert entry_watch w b (record e { starting = false; cancel = some n }) r2.owners,
        )
      ]
  | inr (e0, at) ↦
      let e : OwnerEntry = record e0 { starting = true } in
      let r1 = put r b e in
      elim (Option-cases o) [
        | inl failed ↦ ground (
          arith,
          lookup-insert b b e r.owners,
          str_iff b b,
          held-insert entry_watch w b e r.owners,
          held-insert entry_watch w b
              (record e { starting = false; retry_at = failed_at + watch_retry_interval })
              r1.owners,
        )
        | inr (n, opened) ↦ ground (
          arith,
          lookup-insert b b e r.owners,
          str_iff b b,
          held-insert entry_watch w b e r.owners,
          held-insert entry_watch w b (record e { starting = false; cancel = some n }) r1.owners,
        )
      ]
]

frames_balance :
    (w : ℕ) (r : Resolver) (now failed_at : ℕ) (o : Option ℕ)
    → IsBalanced w r (step r (ensures_frames now failed_at o))
unfolding step ensure_frame_watch begin_frame_watch fail_frame_watch attach_frame_watch
frames_balance w r now failed_at o = ground arith

change_balance :
    (w : ℕ) (r : Resolver) (b owner : String) (now : ℕ)
    → Unique r.owners
    → IsBalanced w r (step r (changes b owner now))
unfolding step on_owner_change
change_balance w r b owner now u = elim (Option-cases (lookup b r.owners)) [
  | inl none_yet ↦ ground arith
  | inr (e, at) ↦ ground (
    arith,
    held-delete entry_watch w b r.owners u,
    holds-put w r b (record e { owner = owner; seen = now; event_at = now }),
  )
]

lists_balance :
    (w : ℕ) (r : Resolver) (list : List Instance) (now : ℕ)
    → IsBalanced w r (step r (lists list now))
unfolding step store_frames
lists_balance w r list now = ground arith

sweep_balance : (w : ℕ) (r : Resolver) (now : ℕ) → IsBalanced w r (step r (sweeps now))
unfolding step sweep
sweep_balance w r now = omega (arith, held-filter_map entry_watch w (is_live now) r.owners)

close_balance : (w : ℕ) (r : Resolver) → IsBalanced w r (step r closes)
unfolding step close
close_balance w r = ground (arith, holds_lem w r)

-- The sections of which `ensureOwnerWatch` and `ensureFrameWatch` are made do not stand alone.
abbrev pub IsWhole : Act → Type 0
IsWhole (begins b now) = ⊥
IsWhole (fails b now) = ⊥
IsWhole (attaches b w) = ⊥
IsWhole (frame_begins now) = ⊥
IsWhole (frame_fails now) = ⊥
IsWhole (frame_attaches w) = ⊥
IsWhole _ = Unit

step_balance :
    (w : ℕ) (r : Resolver) (a : Act) → IsWhole a → Unique r.owners → IsBalanced w r (step r a)
unfolding step
step_balance w r (looks_up b now) h u = omega (arith, holds-lookup_owner w r b now)
step_balance w r (stores b owner started) h u = omega (arith, holds-store_owner w r b owner started)
step_balance w r (ensures b now failed_at o) h u = ensure_balance w r b now failed_at o
step_balance w r (changes b owner now) h u = change_balance w r b owner now u
step_balance w r (lists list now) h u = lists_balance w r list now
step_balance w r (ensures_frames now failed_at o) h u = frames_balance w r now failed_at o
step_balance w r (sweeps now) h u = sweep_balance w r now
step_balance w r (begins b now) h u = elim h [ ]
step_balance w r (fails b now) h u = elim h [ ]
step_balance w r (attaches b n) h u = elim h [ ]
step_balance w r (frame_begins now) h u = elim h [ ]
step_balance w r (frame_fails now) h u = elim h [ ]
step_balance w r (frame_attaches n) h u = elim h [ ]
step_balance w r closes h u = close_balance w r

run_balance :
    (w : ℕ) (r : Resolver) (acts : List Act)
    → All IsWhole acts
    → Unique r.owners
    → IsBalanced w r (run r acts)
unfolding run
run_balance w r [] h u = omega arith
run_balance w r (a ∷ acts) h u =
    let (r', opened, stopped) = step r a in
    let (r'', more, others) = run r' acts in
    omega (
      arith,
      step_balance w r a h.0 u,
      run_balance w r' acts h.1 (step-Unique r a u),
      times-append w opened more,
      times-append w stopped others,
    )

-- Where a watch is opened before anything else happens, none is lost: after any lookups, queries,
-- events, lists, sweeps and closings of a new resolver, the times that a watch was opened are those
-- that it was cancelled and those that it is still held.
pub run-all_watches :
    (w : ℕ) (acts : List Act)
    → All IsWhole acts
    → let (r, opened, stopped) = run new_resolver acts in
      times w opened ≡ times w stopped + times w (all_watches r)
unfolding new_resolver
run-all_watches w acts h =
    let (r, opened, stopped) = run new_resolver acts in
    omega (arith, run_balance w new_resolver acts h tt, holds_lem w r)

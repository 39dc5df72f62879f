-- ===== src/Resolver/Runs.antt =====
-- Runs of the resolver of watchcache.go: the sections under its lock, in any order.
use atlas_game_layout.Common.{
  string_key, nat_key, List, some, delete-Unique, ◌+◌, inr, inl, filter_map-Unique, lookup,
  insert-Unique, arith, Option-cases, Unique, ℕ, String, Bool, true, false, List, [], ◌∷◌, ◌++◌,
  Option, to_list,
}
use atlas_game_layout.Resolver.Instances.{Instance}
use atlas_game_layout.Resolver.State.{watch_retry_interval, OwnerEntry, Resolver}
use atlas_game_layout.Resolver.OwnerCache.{
  new_entry, put, lookup_owner, store_owner, begin_owner_watch, fail_owner_watch,
  attach_owner_watch, ensure_owner_watch, on_owner_change,
}
use atlas_game_layout.Resolver.FrameCache.{
  is_live, store_frames, begin_frame_watch, fail_frame_watch, attach_frame_watch,
  ensure_frame_watch, sweep, close, watches,
}

-- The sections, each with the times that it reads. `ensures` is a whole `ensureOwnerWatch`, of which
-- the watch is opened, or fails to open, before anything else happens.
pub data Act : Type 0 where
  looks_up : String → ℕ → Act
  stores : String → String → ℕ → Act
  begins : String → ℕ → Act
  fails : String → ℕ → Act
  attaches : String → ℕ → Act
  ensures : String → ℕ → ℕ → Option ℕ → Act
  changes : String → String → ℕ → Act
  lists : List Instance → ℕ → Act
  frame_begins : ℕ → Act
  frame_fails : ℕ → Act
  frame_attaches : ℕ → Act
  ensures_frames : ℕ → ℕ → Option ℕ → Act
  sweeps : ℕ → Act
  closes : Act

-- All the watches that are held.
abbrev pub all_watches : Resolver → List ℕ
all_watches r = watches r.owners ++ to_list r.frame_watch

abbrev opened_by : Bool → Option ℕ → List ℕ
opened_by false o = []
opened_by true o = to_list o

-- The new state, the watches that were opened, and those that are cancelled.
unfoldable pub step : Resolver → Act → Resolver × List ℕ × List ℕ
step r (looks_up battle now) = ((lookup_owner r battle now).0, [], [])
step r (stores battle owner started) = (store_owner r battle owner started, [], [])
step r (begins battle now) = ((begin_owner_watch r battle now).0, [], [])
step r (fails battle now) = (fail_owner_watch r battle now, [], [])
step r (attaches battle w) =
    let (r', stopped) = attach_owner_watch r battle w in (r', w ∷ [], stopped)
step r (ensures battle now failed_at o) =
    let (r', stopped) = ensure_owner_watch r battle now failed_at o in
    (r', opened_by (begin_owner_watch r battle now).1 o, stopped)
step r (changes battle owner now) =
    let (r', stopped, calls) = on_owner_change r battle owner now in (r', [], stopped)
step r (lists list now) = (store_frames r list now, [], [])
step r (frame_begins now) = ((begin_frame_watch r now).0, [], [])
step r (frame_fails now) = (fail_frame_watch r now, [], [])
step r (frame_attaches w) = let (r', stopped) = attach_frame_watch r w in (r', w ∷ [], stopped)
step r (ensures_frames now failed_at o) =
    let (r', stopped) = ensure_frame_watch r now failed_at o in
    (r', opened_by (begin_frame_watch r now).1 o, stopped)
step r (sweeps now) = let (r', stopped) = sweep r now in (r', [], stopped)
step r closes = let (r', stopped) = close r in (r', [], stopped)

unfoldable pub run : Resolver → List Act → Resolver × List ℕ × List ℕ
run r [] = (r, [], [])
run r (a ∷ acts) =
    let (r', opened, stopped) = step r a in
    let (r'', more, others) = run r' acts in (r'', opened ++ more, stopped ++ others)

put-Unique :
    (r : Resolver) (b : String) (e : OwnerEntry) → Unique r.owners → Unique (put r b e).owners
put-Unique r b e u = insert-Unique b e r.owners u

lookup_owner-Unique :
    (r : Resolver) (b : String) (now : ℕ) → Unique r.owners → Unique (lookup_owner r b now).0.owners
unfolding lookup_owner
lookup_owner-Unique r b now u = elim (Option-cases (lookup b r.owners)) [
  | inl none_yet ↦ ground arith
  | inr (e, at) ↦ ground (arith, put-Unique r b (record e { seen = now }) u)
]

store_owner-Unique :
    (r : Resolver) (b owner : String) (started : ℕ)
    → Unique r.owners
    → Unique (store_owner r b owner started).owners
unfolding store_owner
store_owner-Unique r b owner started u = elim (Option-cases (lookup b r.owners)) [
  | inl none_yet ↦ ground arith
  | inr (e, at) ↦ ground (arith, put-Unique r b (record e { owner = owner; seen = started }) u)
]

begin_owner_watch-Unique :
    (r : Resolver) (b : String) (now : ℕ)
    → Unique r.owners
    → Unique (begin_owner_watch r b now).0.owners
unfolding begin_owner_watch
begin_owner_watch-Unique r b now u = elim (Option-cases (lookup b r.owners)) [
  | inl none_yet ↦
      let r1 = put r b (new_entry now) in
      let u1 = put-Unique r b (new_entry now) u in
      ground (arith, u1, put-Unique r1 b (record (new_entry now) { starting = true }) u1)
  | inr (e, at) ↦ ground (arith, put-Unique r b (record e { starting = true }) u)
]

fail_owner_watch-Unique :
    (r : Resolver) (b : String) (now : ℕ)
    → Unique r.owners
    → Unique (fail_owner_watch r b now).owners
unfolding fail_owner_watch
fail_owner_watch-Unique r b now u = elim (Option-cases (lookup b r.owners)) [
  | inl none_yet ↦ ground arith
  | inr (e, at) ↦ ground (
    arith,
    put-Unique r b (record e { starting = false; retry_at = now + watch_retry_interval }) u,
  )
]

attach_owner_watch-Unique :
    (r : Resolver) (b : String) (w : ℕ)
    → Unique r.owners
    → Unique (attach_owner_watch r b w).0.owners
unfolding attach_owner_watch
attach_owner_watch-Unique r b w u = elim (Option-cases (lookup b r.owners)) [
  | inl none_yet ↦ ground arith
  | inr (e, at) ↦ ground (arith, put-Unique r b (record e { starting = false; cancel = some w }) u)
]

ensure_owner_watch-Unique :
    (r : Resolver) (b : String) (now failed_at : ℕ) (o : Option ℕ)
    → Unique r.owners
    → Unique (ensure_owner_watch r b now failed_at o).0.owners
unfolding ensure_owner_watch
ensure_owner_watch-Unique r b now failed_at o u =
    let r1 = (begin_owner_watch r b now).0 in
    let u1 = begin_owner_watch-Unique r b now u in
    elim (Option-cases o) [
      | inl failed ↦ ground (arith, u1, fail_owner_watch-Unique r1 b failed_at u1)
      | inr (w, opened) ↦ ground (arith, u1, attach_owner_watch-Unique r1 b w u1)
    ]

on_owner_change-Unique :
    (r : Resolver) (b owner : String) (now : ℕ)
    → Unique r.owners
    → Unique (on_owner_change r b owner now).0.owners
unfolding on_owner_change
on_owner_change-Unique r b owner now u = elim (Option-cases (lookup b r.owners)) [
  | inl none_yet ↦ ground arith
  | inr (e, at) ↦ ground (
    arith,
    delete-Unique b r.owners u,
    put-Unique r b (record e { owner = owner; seen = now; event_at = now }) u,
  )
]

pub step-Unique : (r : Resolver) (a : Act) → Unique r.owners → Unique (step r a).0.owners
unfolding step store_frames begin_frame_watch fail_frame_watch attach_frame_watch ensure_frame_watch
    sweep close
step-Unique r (looks_up b now) u = lookup_owner-Unique r b now u
step-Unique r (stores b owner started) u = store_owner-Unique r b owner started u
step-Unique r (begins b now) u = begin_owner_watch-Unique r b now u
step-Unique r (fails b now) u = fail_owner_watch-Unique r b now u
step-Unique r (attaches b w) u = attach_owner_watch-Unique r b w u
step-Unique r (ensures b now failed_at o) u = ensure_owner_watch-Unique r b now failed_at o u
step-Unique r (changes b owner now) u = on_owner_change-Unique r b owner now u
step-Unique r (lists list now) u = ground arith
step-Unique r (frame_begins now) u = ground arith
step-Unique r (frame_fails now) u = u
step-Unique r (frame_attaches w) u = ground arith
step-Unique r (ensures_frames now failed_at o) u = ground arith
step-Unique r (sweeps now) u = filter_map-Unique (is_live now) r.owners u
step-Unique r closes u = ground arith

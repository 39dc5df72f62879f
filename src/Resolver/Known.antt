-- ===== src/Resolver/Known.antt =====
-- What an event of the directory leaves in the resolver of watchcache.go, section by section.
use atlas_game_layout.Common.{
  ltb, ◌||◌, ◌∙◌, is_some, not, if_elim, sym, subst, ℕ, ◌+◌, ◌≤◌, ◌<◌, String, Bool, true, false,
  List, Option, none, some, ◌≡◌, refl, ap, Unique, lookup, lookup-insert, lookup-delete,
  lookup-filter_map, nat_key, string_key, str_iff, arith, Option-cases, Bool-cases, inl, inr, ◌==◌,
}
use atlas_game_layout.Resolver.State.{
  Resolver, OwnerEntry, CacheLookup, owner_idle_ttl, owner_fresh_ttl, watch_retry_interval,
}
use atlas_game_layout.Resolver.OwnerCache.{
  claimed, refused, attached, refilled, found_owner, begun, lookup_owner, store_owner,
  begin_owner_watch, fail_owner_watch, attach_owner_watch, ensure_owner_watch, on_owner_change, put,
  new_entry,
}
use atlas_game_layout.Resolver.FrameCache.{
  store_frames, begin_frame_watch, fail_frame_watch, attach_frame_watch, ensure_frame_watch, sweep,
  close, is_live,
}
use atlas_game_layout.Resolver.Runs.{
  Act, step, looks_up, stores, begins, fails, attaches, ensures, changes, lists, frame_begins,
  frame_fails, frame_attaches, ensures_frames, sweeps, closes,
}

-- What may follow an event of battle `b` at `t`: for that battle, answers to queries that started
-- before, lookups from then on and no other event; sweeps within the time after which an idle entry
-- goes; and everything for other battles.
abbrev pub IsAfter : String → ℕ → Act → Type 0
IsAfter b t (stores c owner started) = ((c == b) ≡ true) → started < t
IsAfter b t (looks_up c now) = ((c == b) ≡ true) → t ≤ now
IsAfter b t (changes c owner now) = (c == b) ≡ false
IsAfter b t (sweeps now) = now < t + owner_idle_ttl
IsAfter b t _ = Unit

-- The entry still has the owner of the event; or the resolver is closed.
abbrev pub IsKnown : String → ℕ → Bool → Option OwnerEntry → Type 0
IsKnown o t c none = c ≡ true
IsKnown o t c (some e) = (e.owner ≡ o) × (e.event_at ≡ t) × (t ≤ e.seen)

abbrev pub Knows : String → String → ℕ → Resolver → Type 0
Knows b o t r = IsKnown o t r.closed (lookup b r.owners)

module _ (b o : String) (t : ℕ) where
  put-Knows :
      (r : Resolver) (c : String) (e : OwnerEntry)
      → Knows b o t r
      → (c ≡ b → IsKnown o t r.closed (some e))
      → Knows b o t (put r c e)
  put-Knows r c e h new = elim (Bool-cases (c == b)) [
    | inl t ↦ ground (arith, new ((str_iff c b).0 t), lookup-insert c b e r.owners)
    | inr f ↦ ground (arith, lookup-insert c b e r.owners)
  ]

  same_entry :
      (r : Resolver) (c : String) (x : Option OwnerEntry)
      → lookup c r.owners ≡ x
      → Knows b o t r
      → c ≡ b
      → IsKnown o t r.closed x
  same_entry r c x at h q =
      subst (λ y. IsKnown o t r.closed y) (ap (λ k. lookup k r.owners) (sym q) ∙ at) h

  found_owner-Knows :
      (r : Resolver) (c : String) (now : ℕ) (x : Option OwnerEntry)
      → (c ≡ b → IsKnown o t r.closed x)
      → (c ≡ b → t ≤ now)
      → Knows b o t r
      → Knows b o t (found_owner r c now x).0
  found_owner-Knows r c now none same later h = h
  found_owner-Knows r c now (some e) same later h =
      if_elim (λ (q : Resolver × String × CacheLookup). Knows b o t q.0)
        (not (is_some e.cancel) || (e.owner == "")) (λ no_owner. h)
        (λ usable.
          if_elim (λ (q : Resolver × String × CacheLookup). Knows b o t q.0)
            (ltb (e.seen + owner_fresh_ttl) now) (λ old. h)
            (λ fresh.
              put-Knows r c (record e { seen = now }) h λ q. ((same q).0, (same q).1, later q)))

  refilled-Knows :
      (r : Resolver) (c owner : String) (started : ℕ) (x : Option OwnerEntry)
      → (c ≡ b → IsKnown o t r.closed x)
      → (c ≡ b → started < t)
      → Knows b o t r
      → Knows b o t (refilled r c owner started x)
  refilled-Knows r c owner started none same earlier h = h
  refilled-Knows r c owner started (some e) same earlier h =
      if_elim (λ (q : Resolver). Knows b o t q) (not (is_some e.cancel) || ltb started e.event_at)
        (λ newer. h)
        (λ older.
          put-Knows r c (record e { owner = owner; seen = started }) h
            λ q. ground (arith, same q, earlier q))

  begun-Knows :
      (r : Resolver) (c : String) (now : ℕ) (e : OwnerEntry)
      → (c ≡ b → IsKnown o t r.closed (some e))
      → Knows b o t r
      → Knows b o t (begun r c now e).0
  begun-Knows r c now e same h =
      if_elim (λ (q : Resolver × Bool). Knows b o t q.0)
        (is_some e.cancel || e.starting || ltb now e.retry_at) (λ busy. h)
        (λ free. put-Knows r c (record e { starting = true }) h same)

  -- An entry that is there has what is known, under each test of its battle.
  at_entry :
      (r : Resolver) (c : String) → Knows b o t r → c ≡ b → IsKnown o t r.closed (lookup c r.owners)
  at_entry r c h = same_entry r c (lookup c r.owners) refl h

  claimed-Knows :
      (r : Resolver) (c : String) (now : ℕ) (x : Option OwnerEntry)
      → r.closed ≡ false
      → (c ≡ b → IsKnown o t r.closed x)
      → Knows b o t r
      → Knows b o t (claimed r c now x).0
  claimed-Knows r c now none live same h =
      let other : c ≡ b → ⊥ = λ q. ground (arith, same q, live) in
      begun-Knows (put r c (new_entry now)) c now (new_entry now) (λ q. absurd (other q))
        (put-Knows r c (new_entry now) h λ q. absurd (other q))
  claimed-Knows r c now (some e) live same h = begun-Knows r c now e same h

  begin_owner_watch-Knows :
      (r : Resolver) (c : String) (now : ℕ)
      → Knows b o t r
      → Knows b o t (begin_owner_watch r c now).0
  unfolding begin_owner_watch
  begin_owner_watch-Knows r c now h =
      if_elim (λ (q : Resolver × Bool). Knows b o t q.0) r.closed (λ shut. h)
        (λ live. claimed-Knows r c now (lookup c r.owners) live (at_entry r c h) h)

  refused-Knows :
      (r : Resolver) (c : String) (now : ℕ) (x : Option OwnerEntry)
      → (c ≡ b → IsKnown o t r.closed x)
      → Knows b o t r
      → Knows b o t (refused r c now x)
  refused-Knows r c now none same h = h
  refused-Knows r c now (some e) same h =
      put-Knows r c (record e { starting = false; retry_at = now + watch_retry_interval }) h same

  attached-Knows :
      (r : Resolver) (c : String) (w : ℕ) (x : Option OwnerEntry)
      → (c ≡ b → IsKnown o t r.closed x)
      → Knows b o t r
      → Knows b o t (attached r c w x).0
  attached-Knows r c w none same h = h
  attached-Knows r c w (some e) same h =
      if_elim (λ (q : Resolver × List ℕ). Knows b o t q.0) r.closed (λ shut. h)
        (λ live. put-Knows r c (record e { starting = false; cancel = some w }) h same)

  fail_owner_watch-Knows :
      (r : Resolver) (c : String) (now : ℕ) → Knows b o t r → Knows b o t (fail_owner_watch r c now)
  unfolding fail_owner_watch
  fail_owner_watch-Knows r c now h = refused-Knows r c now (lookup c r.owners) (at_entry r c h) h

  attach_owner_watch-Knows :
      (r : Resolver) (c : String) (w : ℕ) → Knows b o t r → Knows b o t (attach_owner_watch r c w).0
  unfolding attach_owner_watch
  attach_owner_watch-Knows r c w h = attached-Knows r c w (lookup c r.owners) (at_entry r c h) h

  ensure_owner_watch-Knows :
      (r : Resolver) (c : String) (now failed_at : ℕ) (answer : Option ℕ)
      → Knows b o t r
      → Knows b o t (ensure_owner_watch r c now failed_at answer).0
  unfolding ensure_owner_watch
  ensure_owner_watch-Knows r c now failed_at answer h =
      let r1 = (begin_owner_watch r c now).0 in
      let h1 = begin_owner_watch-Knows r c now h in
      elim (Option-cases answer) [
        | inl failed ↦ ground (arith, h1, fail_owner_watch-Knows r1 c failed_at h1)
        | inr (w, opened) ↦ ground (arith, h1, attach_owner_watch-Knows r1 c w h1)
      ]

  on_owner_change-Knows :
      (r : Resolver) (c owner : String) (now : ℕ)
      → (c == b) ≡ false
      → Knows b o t r
      → Knows b o t (on_owner_change r c owner now).0
  unfolding on_owner_change
  on_owner_change-Knows r c owner now other h = elim (Option-cases (lookup c r.owners)) [
    | inl none_yet ↦ ground (arith, h)
    | inr (e, at) ↦ ground (
      arith,
      h,
      lookup-delete c b r.owners,
      lookup-insert c b (record e { owner = owner; seen = now; event_at = now }) r.owners,
    )
  ]

  sweep-Knows :
      (r : Resolver) (now : ℕ)
      → now < t + owner_idle_ttl
      → Unique r.owners
      → Knows b o t r
      → Knows b o t (sweep r now).0
  unfolding sweep
  sweep-Knows r now soon u h = elim (Option-cases (lookup b r.owners)) [
    | inl none_yet ↦ ground (arith, lookup-filter_map b (is_live now) r.owners u)
    | inr (e, at) ↦ ground (arith, lookup-filter_map b (is_live now) r.owners u)
  ]

  pub step-Knows :
      (r : Resolver) (a : Act)
      → IsAfter b t a
      → Unique r.owners
      → Knows b o t r
      → Knows b o t (step r a).0
  unfolding step lookup_owner store_owner store_frames begin_frame_watch fail_frame_watch
      attach_frame_watch ensure_frame_watch close
  step-Knows r (looks_up c now) after u h =
      found_owner-Knows r c now (lookup c r.owners) (at_entry r c h)
        (λ q. after ((str_iff c b).1 q)) h
  step-Knows r (stores c owner started) after u h =
      refilled-Knows r c owner started (lookup c r.owners) (at_entry r c h)
        (λ q. after ((str_iff c b).1 q)) h
  step-Knows r (begins c now) after u h = begin_owner_watch-Knows r c now h
  step-Knows r (fails c now) after u h = fail_owner_watch-Knows r c now h
  step-Knows r (attaches c w) after u h = attach_owner_watch-Knows r c w h
  step-Knows r (ensures c now failed_at answer) after u h =
      ensure_owner_watch-Knows r c now failed_at answer h
  step-Knows r (changes c owner now) after u h = on_owner_change-Knows r c owner now after h
  step-Knows r (lists list now) after u h = ground (arith, h)
  step-Knows r (frame_begins now) after u h = ground (arith, h)
  step-Knows r (frame_fails now) after u h = h
  step-Knows r (frame_attaches w) after u h = ground (arith, h)
  step-Knows r (ensures_frames now failed_at answer) after u h = ground (arith, h)
  step-Knows r (sweeps now) after u h = sweep-Knows r now after u h
  step-Knows r closes after u h = ground (arith, h)

-- ===== src/Resolver/Facts.antt =====
-- Which owner the resolver of watchcache.go answers with, after an event of the directory.
use atlas_game_layout.Common.{
  ==_ne, is_some, ℕ, String, true, List, [], ◌∷◌, ◌≡◌, ◌≢◌, All, Unique, lookup, lookup-insert,
  nat_key, string_key, str_iff, arith, Option-cases, inl, inr,
}
use atlas_game_layout.Resolver.State.{Resolver, hit}
use atlas_game_layout.Resolver.OwnerCache.{lookup_owner, on_owner_change}
use atlas_game_layout.Resolver.Runs.{Act, step, run, step-Unique, changes}
use atlas_game_layout.Resolver.Known.{IsAfter, Knows, step-Knows}

module _ (b o : String) (t : ℕ) where
  run-Knows :
      (r : Resolver) (acts : List Act)
      → All (IsAfter b t) acts
      → Unique r.owners
      → Knows b o t r
      → Knows b o t (run r acts).0
  unfolding run
  run-Knows r [] after u h = h
  run-Knows r (a ∷ acts) after u h =
      run-Knows (step r a).0 acts after.1 (step-Unique r a u) (step-Knows b o t r a after.0 u h)

  event-Knows :
      (r : Resolver)
      → o ≢ ""
      → is_some (lookup b r.owners) ≡ true
      → Knows b o t (on_owner_change r b o t).0
  unfolding on_owner_change
  event-Knows r some_owner there = elim (Option-cases (lookup b r.owners)) [
    | inl none_yet ↦ ground arith
    | inr (e, at) ↦ ground (
      arith,
      ==_ne o "" some_owner,
      str_iff b b,
      lookup-insert b b (record e { owner = o; seen = t; event_at = t }) r.owners,
    )
  ]

  lookup_owner-known :
      (r : Resolver) (now : ℕ)
      → Knows b o t r
      → (lookup_owner r b now).2 ≡ hit
      → (lookup_owner r b now).1 ≡ o
  unfolding lookup_owner
  lookup_owner-known r now h was_hit = elim (Option-cases (lookup b r.owners)) [
    | inl none_yet ↦ ground (arith, h)
    | inr (e, at) ↦ ground (arith, h)
  ]

-- After an event of the directory that gives a cached battle its owner, a lookup that hits answers
-- with that owner, whatever sections come between, in any order: queries that started before the
-- event bring back another owner, watches are opened, fail or end, entries are swept within ten
-- minutes of it, lookups come after it, other battles change and the resolver is closed. Only a
-- later query or event of the battle may say otherwise.
pub event-lookup_owner :
    (b o : String) (t now : ℕ) (r : Resolver) (acts : List Act)
    → Unique r.owners
    → is_some (lookup b r.owners) ≡ true
    → o ≢ ""
    → All (IsAfter b t) acts
    → let r' = (run (step r (changes b o t)).0 acts).0 in
      (lookup_owner r' b now).2 ≡ hit → (lookup_owner r' b now).1 ≡ o
unfolding step
event-lookup_owner b o t now r acts u there some_owner after was_hit =
    let r1 = (step r (changes b o t)).0 in
    lookup_owner-known b o t (run r1 acts).0 now
      (run-Knows b o t r1 acts after (step-Unique r (changes b o t) u)
        (event-Knows b o t r some_owner there))
      was_hit

-- ===== src/Resolver/OwnerCache.antt =====
-- The owners of the battles, as watchcache.go caches them.
use atlas_game_layout.Common.{
  ℕ, ◌+◌, String, Bool, true, false, not, List, [], ◌∷◌, Option, none, some, lookup, insert, delete,
  to_list, is_some, ltb, ◌==◌, ◌||◌, string_key, if◌then◌else◌,
}
use atlas_game_layout.Resolver.State.{
  Resolver, OwnerEntry, owner_fresh_ttl, watch_retry_interval, CacheLookup, hit, miss, stale,
  notify,
}

abbrev pub put : Resolver → String → OwnerEntry → Resolver
put r battle e = record r { owners = insert battle e r.owners }

-- `lookupOwner`.
abbrev pub found_owner : Resolver → String → ℕ → Option OwnerEntry → Resolver × String × CacheLookup
found_owner r battle now none = (r, "", miss)
found_owner r battle now (some e) =
    if not (is_some e.cancel) || (e.owner == "")
    then (r, "", miss)
    else if ltb (e.seen + owner_fresh_ttl) now
    then (r, "", stale)
    else (put r battle (record e { seen = now }), e.owner, hit)

unfoldable pub lookup_owner : Resolver → String → ℕ → Resolver × String × CacheLookup
lookup_owner r battle now = found_owner r battle now (lookup battle r.owners)

-- `storeOwner`.
abbrev pub refilled : Resolver → String → String → ℕ → Option OwnerEntry → Resolver
refilled r battle owner started none = r
refilled r battle owner started (some e) =
    if not (is_some e.cancel) || ltb started e.event_at
    then r
    else put r battle (record e { owner = owner; seen = started })

unfoldable pub store_owner : Resolver → String → String → ℕ → Resolver
store_owner r battle owner started = refilled r battle owner started (lookup battle r.owners)

-- `beginOwnerWatch`.
unfoldable pub new_entry : ℕ → OwnerEntry
new_entry now = record {
  owner = "";
  seen = now;
  event_at = 0;
  cancel = none;
  starting = false;
  retry_at = 0;
}

abbrev pub begun : Resolver → String → ℕ → OwnerEntry → Resolver × Bool
begun r battle now e =
    if is_some e.cancel || e.starting || ltb now e.retry_at
    then (r, false)
    else (put r battle (record e { starting = true }), true)

abbrev pub claimed : Resolver → String → ℕ → Option OwnerEntry → Resolver × Bool
claimed r battle now none = begun (put r battle (new_entry now)) battle now (new_entry now)
claimed r battle now (some e) = begun r battle now e

unfoldable pub begin_owner_watch : Resolver → String → ℕ → Resolver × Bool
begin_owner_watch r battle now =
    if r.closed then (r, false) else claimed r battle now (lookup battle r.owners)

-- `failOwnerWatch`.
abbrev pub refused : Resolver → String → ℕ → Option OwnerEntry → Resolver
refused r battle now none = r
refused r battle now (some e) =
    put r battle (record e { starting = false; retry_at = now + watch_retry_interval })

unfoldable pub fail_owner_watch : Resolver → String → ℕ → Resolver
fail_owner_watch r battle now = refused r battle now (lookup battle r.owners)

-- `attachOwnerWatch`: the watch goes into the entry, or is cancelled.
abbrev pub attached : Resolver → String → ℕ → Option OwnerEntry → Resolver × List ℕ
attached r battle watch none = (r, watch ∷ [])
attached r battle watch (some e) =
    if r.closed
    then (r, watch ∷ [])
    else (put r battle (record e { starting = false; cancel = some watch }), [])

unfoldable pub attach_owner_watch : Resolver → String → ℕ → Resolver × List ℕ
attach_owner_watch r battle watch = attached r battle watch (lookup battle r.owners)

-- `ensureOwnerWatch`, where the directory answers with a watch, or not, at `failed_at`, before
-- anything else happens.
unfoldable pub ensure_owner_watch : Resolver → String → ℕ → ℕ → Option ℕ → Resolver × List ℕ
ensure_owner_watch r battle now failed_at answer =
    let (r', fresh) = begin_owner_watch r battle now in
    if fresh
    then elim answer [
      | none ↦ (fail_owner_watch r' battle failed_at, [])
      | some watch ↦ attach_owner_watch r' battle watch
    ]
    else (r', [])

-- `onOwnerChange`: the watches that are cancelled, and the callbacks.
abbrev pub owner_changed :
    Resolver → String → String → ℕ → Option OwnerEntry → Resolver × List ℕ × List (ℕ × String)
owner_changed r battle owner now none = (r, [], [])
owner_changed r battle owner now (some e) =
    if owner == ""
    then (record r { owners = delete battle r.owners }, to_list e.cancel, notify r battle)
    else (
      put r battle (record e { owner = owner; seen = now; event_at = now }),
      [],
      if e.owner == owner then [] else notify r battle,
    )

unfoldable pub on_owner_change :
    Resolver → String → String → ℕ → Resolver × List ℕ × List (ℕ × String)
on_owner_change r battle owner now = owner_changed r battle owner now (lookup battle r.owners)

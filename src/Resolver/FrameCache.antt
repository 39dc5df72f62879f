-- ===== src/Resolver/FrameCache.antt =====
-- The snapshot of the frame instances and its watch, of watchcache.go, and the two operations that
-- drop what is held: the sweep of idle entries, and the end of the resolver.
use atlas_game_layout.Common.{
  held, ℕ, ◌+◌, String, Bool, true, false, not, List, [], ◌∷◌, ◌++◌, Option, none, some, Map,
  lookup, insert, filter_map, to_list, is_some, ltb, ◌||◌, string_key, if◌then◌else◌,
}
use atlas_game_layout.Resolver.Instances.{Instance}
use atlas_game_layout.Resolver.State.{
  Resolver, OwnerEntry, frame_fresh_ttl, owner_idle_ttl, watch_retry_interval, CacheLookup, hit,
  miss, stale, FrameSnapshot,
}

-- `lookupFrame`.
abbrev pub found_frame : String → ℕ → Option FrameSnapshot → Option Instance × CacheLookup
found_frame node now none = (none, miss)
found_frame node now (some s) =
    if ltb (s.at + frame_fresh_ttl) now
    then (none, stale)
    else elim (lookup node s.by_node) [ none ↦ (none, miss) | some i ↦ (some i, hit) ]

unfoldable pub lookup_frame : Resolver → String → ℕ → Option Instance × CacheLookup
lookup_frame r node now = found_frame node now r.snapshot

-- The loop of `storeFrames`.
unfoldable pub index_nodes : Map String Instance → List Instance → Map String Instance
index_nodes by_node [] = by_node
index_nodes by_node (i ∷ is) = index_nodes (insert i.node_id i by_node) is

-- `storeFrames`, and `onFrames`, which calls it with the time.
unfoldable pub store_frames : Resolver → List Instance → ℕ → Resolver
store_frames r list now =
    if is_some r.frame_watch
    then record r { snapshot = some (record { by_node = index_nodes [] list; at = now }) }
    else r

-- `ensureFrameWatch`: its first section, the one of a failure, and the one of a watch.
unfoldable pub begin_frame_watch : Resolver → ℕ → Resolver × Bool
begin_frame_watch r now =
    if r.closed || is_some r.frame_watch || r.frame_starting || ltb now r.frame_retry
    then (r, false)
    else (record r { frame_starting = true }, true)

unfoldable pub fail_frame_watch : Resolver → ℕ → Resolver
fail_frame_watch r now = record r {
  frame_starting = false;
  frame_retry = now + watch_retry_interval;
}

unfoldable pub attach_frame_watch : Resolver → ℕ → Resolver × List ℕ
attach_frame_watch r watch =
    if r.closed
    then (record r { frame_starting = false }, watch ∷ [])
    else (record r { frame_starting = false; frame_watch = some watch }, [])

unfoldable pub ensure_frame_watch : Resolver → ℕ → ℕ → Option ℕ → Resolver × List ℕ
unfolding begin_frame_watch fail_frame_watch attach_frame_watch
ensure_frame_watch r now failed_at answer =
    let (r', fresh) = begin_frame_watch r now in
    if fresh
    then elim answer [
      | none ↦ (fail_frame_watch r' failed_at, [])
      | some watch ↦ attach_frame_watch r' watch
    ]
    else (r', [])

abbrev pub entry_watch : OwnerEntry → List ℕ
entry_watch e = to_list e.cancel

-- The watches that the entries hold.
abbrev pub watches : Map String OwnerEntry → List ℕ
watches m = held entry_watch m

-- `sweep`.
abbrev pub is_live : ℕ → String → OwnerEntry → Bool
is_live now battle e = ltb now (e.seen + owner_idle_ttl)

unfoldable pub sweep : Resolver → ℕ → Resolver × List ℕ
sweep r now = (
  record r { owners = filter_map (is_live now) r.owners },
  watches (filter_map (λ b e. not (is_live now b e)) r.owners),
)

-- `Close`.
unfoldable pub close : Resolver → Resolver × List ℕ
close r = if r.closed then (r, []) else (
  record r { owners = []; snapshot = none; frame_watch = none; closed = true },
  watches r.owners ++ to_list r.frame_watch,
)

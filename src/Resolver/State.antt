-- ===== src/Resolver/State.antt =====
-- The state of the resolver of watchcache.go and resolver.go, its constants and its callbacks.
use atlas_game_layout.Common.{
  ℕ, ◌*◌, String, Bool, false, List, [], ◌∷◌, Option, none, some, Map, string_key,
}
use atlas_game_layout.Resolver.Instances.{Instance}

abbrev pub second : ℕ
second = 1000000000

abbrev pub owner_fresh_ttl : ℕ
owner_fresh_ttl = 120 * second

abbrev pub frame_fresh_ttl : ℕ
frame_fresh_ttl = 60 * second

abbrev pub owner_idle_ttl : ℕ
owner_idle_ttl = 600 * second

abbrev pub watch_retry_interval : ℕ
watch_retry_interval = 5 * second

pub data CacheLookup : Type 0 where
  hit : CacheLookup
  miss : CacheLookup
  stale : CacheLookup

unfoldable pub merge : CacheLookup → CacheLookup → CacheLookup
merge stale b = stale
merge hit b = b
merge miss stale = stale
merge miss hit = miss
merge miss miss = miss

pub record OwnerEntry : Type 0 where
  pub owner : String
  pub seen : ℕ
  pub event_at : ℕ
  pub cancel : Option ℕ
  pub starting : Bool
  pub retry_at : ℕ

pub record FrameSnapshot : Type 0 where
  pub by_node : Map String Instance
  pub at : ℕ

-- The state under the lock, and the counters of `ResolveCacheCounters`.
pub record Resolver : Type 0 where
  pub owners : Map String OwnerEntry
  pub snapshot : Option FrameSnapshot
  pub frame_watch : Option ℕ
  pub frame_starting : Bool
  pub frame_retry : ℕ
  pub closed : Bool
  pub on_change : Option ℕ
  pub reports : List CacheLookup

-- `New`, where the directory and the registry are there.
unfoldable pub new_resolver : Resolver
new_resolver = record {
  owners = [];
  snapshot = none;
  frame_watch = none;
  frame_starting = false;
  frame_retry = 0;
  closed = false;
  on_change = none;
  reports = [];
}

-- The callbacks of `notify`: which one, and with which battle.
unfoldable pub notify : Resolver → String → List (ℕ × String)
notify r battle = elim (r.on_change) [ none ↦ [] | some f ↦ (f, battle) ∷ [] ]

-- `OnResolveChanged`, and what it returns.
unfoldable pub on_resolve_changed : Resolver → Option ℕ → Resolver
on_resolve_changed r f = record r { on_change = f }

unfoldable pub drop_resolve_changed : Resolver → Resolver
drop_resolve_changed r = record r { on_change = none }

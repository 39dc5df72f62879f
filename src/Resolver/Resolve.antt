-- ===== src/Resolver/Resolve.antt =====
-- `Resolve` of services/edge/internal/resolver/resolver.go, with `pickInstance` and `report` of
-- watchcache.go. The answers of the directory and the registry, and the times that the clock shows
-- as they come, are arguments, and so is what `types.NewPID` makes of a battle id. Nothing comes
-- between the parts of a call here, so that a watch that it opens is kept; Runs has the sections
-- one by one, with the events that come while a watch is being opened.
use atlas_game_layout.Common.{
  ℕ, String, List, [], ◌∷◌, Option, none, some, is_some, ◌==◌, ◌&&◌, nat_key, string_key,
  if◌then◌else◌,
}
use atlas_game_layout.Resolver.Instances.{Instance, has_port, address}
use atlas_game_layout.Resolver.State.{Resolver, CacheLookup, hit, miss, stale, merge}
use atlas_game_layout.Resolver.OwnerCache.{lookup_owner, store_owner, ensure_owner_watch}
use atlas_game_layout.Resolver.FrameCache.{lookup_frame, store_frames, ensure_frame_watch}

-- What a call reads: the clock, each time that it does, and the answers, none for an error.
pub record Answers : Type 0 where
  pub started : ℕ
  pub began : ℕ
  pub failed_at : ℕ
  pub owner_watch : Option ℕ
  pub owner_node : Option String
  pub looked : ℕ
  pub frame_began : ℕ
  pub frame_failed_at : ℕ
  pub frame_watch_answer : Option ℕ
  pub instances : Option (List Instance)
  pub listed : ℕ

-- The errors, each of which is wrapped as `ReasonBackendUnavailable`.
pub data Rejection : Type 0 where
  no_battle_id : Rejection
  bad_pid : Rejection
  directory_failed : Rejection
  no_owner : Rejection
  registry_failed : Rejection
  no_instance : Rejection

-- `edge.Backend`, or the error.
pub data Reply (A : Type 0) : Type 0 where
  rejected : Rejection → Reply A
  found : A → Reply A

pub record Backend : Type 0 where
  pub backend_address : String
  pub backend_owner : String

-- `ownerNode`, of a lookup that did not hit: the answer of the directory.
abbrev pub queried : Resolver → String → ℕ → Option String → Resolver × Reply String
queried r battle started none = (r, rejected directory_failed)
queried r battle started (some node) =
    if node == "" then (r, rejected no_owner) else (store_owner r battle node started, found node)

abbrev pub owner_from :
    Resolver × String × CacheLookup → String → Answers → Resolver × Reply String × CacheLookup
owner_from (r, owner, hit) battle a = (r, found owner, hit)
owner_from (r, owner, l) battle a =
    let r' = (ensure_owner_watch r battle a.began a.failed_at a.owner_watch).0 in
    let (r'', reply) = queried r' battle a.started a.owner_node in (r'', reply, l)

unfoldable pub owner_node_of : Resolver → String → Answers → Resolver × Reply String × CacheLookup
owner_node_of r battle a = owner_from (lookup_owner r battle a.started) battle a

-- The loop of `pickInstance` over the list of the registry.
unfoldable pub first_instance : List Instance → String → String → Reply Instance
first_instance [] node face = rejected no_instance
first_instance (i ∷ is) node face =
    let rest = first_instance is node face in
    if (i.node_id == node) && has_port i face then found i else rest

-- `pickInstance`, of a lookup that does not do.
abbrev pub listed_from :
    Resolver → String → String → ℕ → Option (List Instance) → Resolver × Reply Instance
listed_from r node face now none = (r, rejected registry_failed)
listed_from r node face now (some is) = (store_frames r is now, first_instance is node face)

abbrev pub pick_listed :
    Resolver → String → String → CacheLookup → Answers → Resolver × Reply Instance × CacheLookup
pick_listed r node face l a =
    let r' = (ensure_frame_watch r a.frame_began a.frame_failed_at a.frame_watch_answer).0 in
    let (r'', reply) = listed_from r' node face a.listed a.instances in (r'', reply, l)

abbrev pub pick_from :
    Resolver
    → String
    → String
    → Option Instance × CacheLookup
    → Answers
    → Resolver × Reply Instance × CacheLookup
pick_from r node face (some i, hit) a =
    let asked = pick_listed r node face miss a in
    if has_port i face then (r, found i, hit) else asked
pick_from r node face (none, hit) a = pick_listed r node face miss a
pick_from r node face (i, miss) a = pick_listed r node face miss a
pick_from r node face (i, stale) a = pick_listed r node face stale a

unfoldable pub pick_instance :
    Resolver → String → String → Answers → Resolver × Reply Instance × CacheLookup
pick_instance r node face a = pick_from r node face (lookup_frame r node a.looked) a

-- `report`.
unfoldable pub report : Resolver → CacheLookup → Resolver
report r l = record r { reports = l ∷ r.reports }

-- `Resolve`: its parts after the owner and the instance are looked for.
abbrev pub with_instance :
    Resolver × Reply Instance × CacheLookup
    → CacheLookup
    → String
    → String
    → Resolver × Reply Backend
with_instance (r, rejected e, l) k node face = (r, rejected e)
with_instance (r, found i, l) k node face = (
  report r (merge k l),
  found (record { backend_address = address i face; backend_owner = node }),
)

abbrev pub with_owner :
    Resolver × Reply String × CacheLookup → String → Answers → Resolver × Reply Backend
with_owner (r, rejected e, k) face a = (r, rejected e)
with_owner (r, found node, k) face a = with_instance (pick_instance r node face a) k node face

-- The PID of the battle, or none where `NewPID` refuses it.
unfoldable pub resolve :
    (String → Option String) → Resolver → String → String → Answers → Resolver × Reply Backend
resolve new_pid r battle face a =
    if battle == ""
    then (r, rejected no_battle_id)
    else if is_some (new_pid battle)
    then with_owner (owner_node_of r battle a) face a
    else (r, rejected bad_pid)

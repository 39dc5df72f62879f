-- ===== src/Resolver/Backends.antt =====
-- What `Resolve` of resolver.go answers with, and what it reports.
use atlas_game_layout.Common.{
  ◌≢◌, String, List, ◌∷◌, Option, none, some, ◌≡◌, ◌⊎◌, Map, lookup, nat_key, string_key,
}
use atlas_game_layout.Resolver.Instances.{Instance, address}
use atlas_game_layout.Resolver.State.{Resolver, FrameSnapshot, CacheLookup, hit, merge}
use atlas_game_layout.Resolver.OwnerCache.{lookup_owner}
use atlas_game_layout.Resolver.Picks.{IsOn, IsKnown, IsRefused, IsPicked}
use atlas_game_layout.Resolver.Resolve.{
  Rejection, directory_failed, registry_failed, no_instance, bad_pid, no_owner, no_battle_id,
  Answers, Reply, rejected, found, Backend,
}

-- Every entry of the index is the instance of its node.
abbrev IsIndex : Map String Instance → Type 0
IsIndex m = (node : String) (i : Instance) → lookup node m ≡ some i → i.node_id ≡ node

abbrev pub IsIndexed : Option FrameSnapshot → Type 0
IsIndexed none = Unit
IsIndexed (some s) = IsIndex s.by_node

-- The reports and the snapshot of a resolver, which a step does not touch.
abbrev Keeps : Resolver → Resolver → Type 0
Keeps r r' = (r'.reports ≡ r.reports) × (r'.snapshot ≡ r.snapshot)

-- Where an owner comes from: the cache, or the directory.
abbrev pub IsFrom : Resolver → String → Answers → String → CacheLookup → Type 0
IsFrom r battle a owner l =
    ((l ≡ hit)
      × ((lookup_owner r battle a.started).1 ≡ owner)
      × ((lookup_owner r battle a.started).2 ≡ hit))
    ⊎ ((l ≢ hit) × (a.owner_node ≡ some owner) × (owner ≢ ""))

-- The directory failed, or it knows no owner.
abbrev pub IsUnowned : Option String → Rejection → Type 0
IsUnowned o directory_failed = o ≡ none
IsUnowned o no_owner = o ≡ some ""
IsUnowned o _ = ⊥

abbrev IsOwner : Resolver → String → Answers → Resolver × Reply String × CacheLookup → Type 0
IsOwner r battle a (r', rejected e, l) = Keeps r r' × IsUnowned a.owner_node e
IsOwner r battle a (r', found owner, l) = Keeps r r' × IsFrom r battle a owner l

abbrev IsQueried : Resolver → Option String → Resolver × Reply String → Type 0
IsQueried r o (r', rejected e) = Keeps r r' × IsUnowned o e
IsQueried r o (r', found owner) = Keeps r r' × (o ≡ some owner) × (owner ≢ "")

-- What is picked, by a resolver whose reports stay and whose index stays one.
abbrev IsPick :
    Resolver
    → Option (List Instance)
    → String
    → String
    → Resolver × Reply Instance × CacheLookup
    → Type 0
IsPick r listed node face (r', reply, l) =
    (r'.reports ≡ r.reports)
    × (IsIndexed r.snapshot → IsIndexed r'.snapshot)
    × IsPicked r.snapshot listed node face reply

-- What the snapshot holds of a node.
abbrev IsHeld : Resolver → String → Instance → Type 0
IsHeld r node i =
    (i.node_id ≡ node)
    × ((s : FrameSnapshot) × (r.snapshot ≡ some s) × (lookup node s.by_node ≡ some i))

-- Why a resolution is rejected.
abbrev pub IsRejected :
    (String → Option String) → Resolver → String → String → Answers → Rejection → Type 0
IsRejected new_pid r battle face a no_battle_id = battle ≡ ""
IsRejected new_pid r battle face a bad_pid = new_pid battle ≡ none
IsRejected new_pid r battle face a directory_failed = a.owner_node ≡ none
IsRejected new_pid r battle face a no_owner = a.owner_node ≡ some ""
IsRejected new_pid r battle face a registry_failed =
    (node : String) × (k : CacheLookup) × IsFrom r battle a node k
    × IsRefused a.instances node face registry_failed
IsRejected new_pid r battle face a no_instance =
    (node : String) × (k : CacheLookup) × IsFrom r battle a node k
    × IsRefused a.instances node face no_instance

-- A backend is a known instance of the owner with a port of the face, and its owner comes from the
-- cache or the directory; it is reported once.
abbrev pub IsResolved :
    (String → Option String)
    → Resolver
    → String
    → String
    → Answers
    → Resolver × Reply Backend
    → Type 0
IsResolved new_pid r battle face a (r', rejected e) = IsRejected new_pid r battle face a e
IsResolved new_pid r battle face a (r', found b) =
    ((i : Instance) × IsOn b.backend_owner face i
      × IsKnown r.snapshot a.instances b.backend_owner i
      × (b.backend_address ≡ address i face))
    × ((k : CacheLookup) × (l : CacheLookup) × IsFrom r battle a b.backend_owner k
        × (r'.reports ≡ merge k l ∷ r.reports))

module _ (new_pid : String → Option String) (r : Resolver) (battle face : String)
    (a : Answers) where
  abbrev Result : Resolver × Reply Backend → Type 0
  Result q = IsResolved new_pid r battle face a q × IsIndexed q.0.snapshot

-- ===== src/Resolver/Picks.antt =====
-- Which instances `pickInstance` of watchcache.go may take, and why it finds none.
use atlas_game_layout.Common.{
  sym, subst, String, true, List, [], ◌∷◌, Option, none, some, ◌≡◌, ◌⊎◌, inl, inr, refl, lookup,
  All, ◌==◌, ◌&&◌, string_key, str_iff, arith, if_elim,
}
use atlas_game_layout.Resolver.Instances.{Instance, has_port}
use atlas_game_layout.Resolver.State.{FrameSnapshot}
use atlas_game_layout.Resolver.Resolve.{
  Rejection, registry_failed, no_instance, Reply, rejected, found, first_instance,
}

-- The instance has the node's id and a port of the face.
abbrev pub IsOn : String → String → Instance → Type 0
IsOn node face i = (i.node_id ≡ node) × (has_port i face ≡ true)

abbrev pub Has : List Instance → Instance → Type 0
Has [] i = ⊥
Has (x ∷ is) i = (x ≡ i) ⊎ Has is i

-- The instance is the node's one of the snapshot, or one that the registry lists.
abbrev pub IsKnown : Option FrameSnapshot → Option (List Instance) → String → Instance → Type 0
IsKnown snapshot listed node i =
    ((s : FrameSnapshot) × (snapshot ≡ some s) × (lookup node s.by_node ≡ some i))
    ⊎ ((is : List Instance) × (listed ≡ some is) × Has is i)

-- The registry failed, or none of those that it lists is on the node with a port of the face.
abbrev pub IsRefused : Option (List Instance) → String → String → Rejection → Type 0
IsRefused listed node face registry_failed = listed ≡ none
IsRefused listed node face no_instance =
    (is : List Instance) × (listed ≡ some is) × All (λ i. IsOn node face i → ⊥) is
IsRefused listed node face _ = ⊥

abbrev pub IsPicked :
    Option FrameSnapshot → Option (List Instance) → String → String → Reply Instance → Type 0
IsPicked snapshot listed node face (rejected e) = IsRefused listed node face e
IsPicked snapshot listed node face (found i) = IsOn node face i × IsKnown snapshot listed node i

abbrev IsFirst : List Instance → String → String → Reply Instance → Type 0
IsFirst is node face (rejected e) = (e ≡ no_instance) × All (λ i. IsOn node face i → ⊥) is
IsFirst is node face (found i) = IsOn node face i × Has is i

further-IsFirst :
    (x : Instance) (is : List Instance) (node face : String) (reply : Reply Instance)
    → (IsOn node face x → ⊥)
    → IsFirst is node face reply
    → IsFirst (x ∷ is) node face reply
further-IsFirst x is node face (rejected e) off h = (h.0, (off, h.1))
further-IsFirst x is node face (found i) off h = (h.0, inr h.1)

first_instance-IsFirst :
    (is : List Instance) (node face : String) → IsFirst is node face (first_instance is node face)
unfolding first_instance
first_instance-IsFirst [] node face = (refl, tt)
first_instance-IsFirst (i ∷ is) node face =
    if_elim (IsFirst (i ∷ is) node face) ((i.node_id == node) && has_port i face)
      (λ this. (ground (arith, str_iff i.node_id node), inl refl))
      (λ other.
        further-IsFirst i is node face (first_instance is node face)
          (λ on. ground (arith, other, str_iff i.node_id node, on.0, on.1))
          (first_instance-IsFirst is node face))

IsFirst-IsPicked :
    (snapshot : Option FrameSnapshot) (is : List Instance) (node face : String)
    (reply : Reply Instance)
    → IsFirst is node face reply
    → IsPicked snapshot (some is) node face reply
IsFirst-IsPicked snapshot is node face (rejected e) h =
    subst (IsRefused (some is) node face) (sym h.0) (is, refl, h.1)
IsFirst-IsPicked snapshot is node face (found i) h = (h.0, inr (is, refl, h.1))

pub first_instance-IsPicked :
    (snapshot : Option FrameSnapshot) (is : List Instance) (node face : String)
    → IsPicked snapshot (some is) node face (first_instance is node face)
first_instance-IsPicked snapshot is node face =
    IsFirst-IsPicked snapshot is node face (first_instance is node face)
      (first_instance-IsFirst is node face)

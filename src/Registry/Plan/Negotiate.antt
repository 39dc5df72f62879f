-- ===== src/Registry/Plan/Negotiate.antt =====
-- What payload version a client and a node agree on.
use atlas_game_layout.Common.{
  ℕ, ◌≤◌, String, Bool, true, List, [], ◌∷◌, ◌≡◌, ◌≢◌, ◌⊎◌, inl, inr, refl, sym, subst, lookup,
  lookup-insert, member, nat_key, string_key, str_iff, arith,
}
use atlas_game_layout.Registry.State.{Engine, Registry, unspecified, protojson, delta_version}
use atlas_game_layout.Registry.Plan.{
  highest, highest_allowed, allowed_version, takes_delta, agreed, negotiate, state_or_new,
  decide_full, decide,
}

highest-ge : (best allowed : ℕ) (vs : List ℕ) → best ≤ highest best allowed vs
unfolding highest
highest-ge best allowed [] = omega arith
highest-ge best allowed (v ∷ vs) =
    ground (arith, highest-ge v allowed vs, highest-ge best allowed vs)

highest-bound :
    (best allowed w : ℕ) (vs : List ℕ)
    → member w vs ≡ true
    → w ≤ allowed
    → w ≤ highest best allowed vs
unfolding highest
highest-bound best allowed w [] h l = ground arith
highest-bound best allowed w (v ∷ vs) h l = ground (
  arith,
  highest-ge v allowed vs,
  highest-ge best allowed vs,
  highest-bound v allowed w vs,
  highest-bound best allowed w vs,
)

highest-member :
    (best allowed : ℕ) (vs : List ℕ)
    → (highest best allowed vs ≡ best)
      ⊎ (member (highest best allowed vs) vs ≡ true) × (highest best allowed vs ≤ allowed)
unfolding highest
highest-member best allowed [] = inl refl
highest-member best allowed (v ∷ vs) =
    ground (arith, highest-member v allowed vs, highest-member best allowed vs)

-- The best version of those that the client accepts and the node allows, or `protojson`.
abbrev pub IsBest : List ℕ → ℕ → ℕ → Type 0
IsBest accepted allowed v =
    (((member v accepted ≡ true) × (v ≤ allowed)) ⊎ (v ≡ protojson))
    × ((w : ℕ) → member w accepted ≡ true → w ≤ allowed → w ≤ v)

highest_allowed-IsBest :
    (accepted : List ℕ) (allowed : ℕ) → IsBest accepted allowed (highest_allowed accepted allowed)
unfolding highest_allowed
highest_allowed-IsBest [] allowed = (inr refl, λ w h l. absurd (ground arith))
highest_allowed-IsBest (v ∷ vs) allowed = (
  ground (arith, highest-member unspecified allowed (v ∷ vs)),
  λ w h l. ground (arith, highest-bound unspecified allowed w (v ∷ vs)),
)

module _ {Time : Type 0} where
  agreed_of_takes :
      (en : Engine) (r : Registry Time) (p : String) (accepted : List ℕ)
      → takes_delta en (lookup p r.conns) ≡ true
      → agreed en r p accepted ≡ highest_allowed accepted (allowed_version r)
  unfolding agreed
  agreed_of_takes en r p accepted h = ground arith

  agreed-delta :
      (en : Engine) (r : Registry Time) (p : String) (accepted : List ℕ)
      → agreed en r p accepted ≡ delta_version
      → (highest_allowed accepted (allowed_version r) ≡ delta_version)
        × (takes_delta en (lookup p r.conns) ≡ true)
  unfolding agreed
  agreed-delta en r p accepted e = ground arith

  delta_allowed :
      (accepted : List ℕ) (r : Registry Time)
      → r.push_ver ≤ 2
      → IsBest accepted (allowed_version r) delta_version
      → (r.delta ≡ true) × (member delta_version accepted ≡ true)
  unfolding allowed_version
  delta_allowed accepted r h best = ground (arith, best.0)

  -- On a node whose push version is 2 at most, the agreed version is written down for the player.
  -- Off the datagram face of a player with a connection it is the best of those that the client
  -- accepts and the node allows, or `protojson` where there is none; a delta is agreed on only by
  -- a node that sends deltas, with a client that accepts them, on a connection that is no datagram
  -- one.
  pub negotiate_lem :
      (en : Engine) (r : Registry Time) (p : String) (accepted : List ℕ)
      → r.push_ver ≤ 2
      → let (r', v) = negotiate en r p accepted in
        ((state_or_new (lookup p r'.states)).payload_ver ≡ v)
        × (takes_delta en (lookup p r.conns) ≡ true → IsBest accepted (allowed_version r) v)
        × (v ≡ delta_version
            → (r.delta ≡ true)
              × (member delta_version accepted ≡ true)
              × (takes_delta en (lookup p r.conns) ≡ true))
  unfolding negotiate agreed
  negotiate_lem en r p accepted h = (
    ground (
      arith,
      str_iff p p,
      lookup-insert p p
          (record (state_or_new (lookup p r.states)) { payload_ver = agreed en r p accepted })
          r.states,
    ),
    λ takes.
        subst (IsBest accepted (allowed_version r)) (sym (agreed_of_takes en r p accepted takes))
          (highest_allowed-IsBest accepted (allowed_version r)),
    λ e.
        let (best, takes) = agreed-delta en r p accepted e in
        let top = highest_allowed-IsBest accepted (allowed_version r) in
        let both =
          delta_allowed accepted r h (subst (IsBest accepted (allowed_version r)) best top) in
        (both.0, both.1, takes),
  )

  -- A player that did not agree on deltas is sent whole frames in the push version of the node,
  -- whatever it agreed on.
  pub negotiate-decide :
      (en : Engine) (r : Registry Time) (p : String) (accepted : List ℕ) (kind : String) (seq : ℕ)
      (ok : Bool)
      → (negotiate en r p accepted).1 ≢ delta_version
      → let r' = (negotiate en r p accepted).0 in
        decide en r' kind (lookup p r'.states) seq ok ≡ (r.push_ver, true)
  unfolding negotiate decide_full decide
  negotiate-decide en r p accepted kind seq ok ne = ground (
    arith,
    str_iff p p,
    lookup-insert p p
        (record (state_or_new (lookup p r.states)) { payload_ver = agreed en r p accepted })
        r.states,
  )

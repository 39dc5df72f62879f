-- ===== src/Registry/Plan/Targets.antt =====
-- What `buildPlan` of delta.go makes of a frame.
use atlas_game_layout.Common.{
  ℕ, String, true, false, ◌&&◌, List, [], ◌∷◌, some, ◌≡◌, ◌⊎◌, lookup, is_some, map, All, nat_key,
  string_key, if◌then◌else◌, ltb, ◌%◌, ◌==◌,
}
use atlas_game_layout.Frame.{Timestamps, Frame}
use atlas_game_layout.Delta.{diff}
use atlas_game_layout.Registry.State.{Engine, Conn, Link, Registry, delta_version, conn_key}
use atlas_game_layout.Registry.Plan.{Target, Plan, next_u64, any_delta}
use atlas_game_layout.Registry.Plan.Decide.{TakesDelta}

module _ {Time : Type 0} where
  -- What the code wants of the link, the node, the player and the connection before it sends a
  -- delta, read off the tables.
  pub record IsFitForDelta (en : Engine) (r : Registry Time) (battle_id : String) (frame : ℕ)
      (p : String) (c : Conn) : Type 0 where
    pub link : Link Time
    pub linked : lookup battle_id r.links ≡ some link
    pub follows_link : next_u64 link.seq ≡ frame
    pub sends_deltas : r.delta ≡ true
    pub not_periodic : ltb 0 r.key_every && frame % r.key_every == 0 ≡ false
    pub takes :
        TakesDelta en r frame
          (record { player_id = p; conn = c; ver = delta_version; full = false })

  -- A target is sent the delta exactly where that holds.
  abbrev pub IsPlanned : Engine → Registry Time → String → ℕ → Target → Type 0
  IsPlanned en r battle_id frame t =
      (lookup t.player_id r.conns ≡ some t.conn)
      × (((t.full ≡ true)
            × (t.ver ≡ r.push_ver)
            × (IsFitForDelta en r battle_id frame t.player_id t.conn → ⊥))
          ⊎ ((t.full ≡ false)
              × (t.ver ≡ delta_version)
              × IsFitForDelta en r battle_id frame t.player_id t.conn))

  -- Those of a list of players who have a connection.
  abbrev pub connected : Registry Time → List String → List String
  connected r [] = []
  connected r (p ∷ ps) =
      let rest = connected r ps in if is_some (lookup p r.conns) then p ∷ rest else rest

module _ {Time : Type 0} ⦃ts : Timestamps Time⦄ where
  -- What a plan says of its delta: that of the link's frame and the new one.
  abbrev pub IsPlan : Engine → Registry Time → String → List String → Frame Time → Plan → Type 0
  IsPlan en r b players f plan =
      (plan.seq ≡ f.frame_id)
      × (map (λ t. t.player_id) plan.targets ≡ connected r players)
      × All (IsPlanned en r b f.frame_id) plan.targets
      × (any_delta plan.targets ≡ true
          → (l : Link Time) × (lookup b r.links ≡ some l)
            × (next_u64 l.seq ≡ f.frame_id)
            × (plan.delta ≡ some (diff l.frame f)))

-- ===== src/Registry/Conns/Laws.antt =====
-- Takeover, and late events of a replaced connection.
use atlas_game_layout.Common.{
  String, true, false, not, ◌&&◌, [], ◌∷◌, none, some, ◌≡◌, ◌≢◌, sym, lookup, insert, delete,
  lookup-insert, lookup-delete, ◌==◌, string_key, str_iff, if◌then◌else◌, arith,
}
use atlas_game_layout.Registry.State.{
  Engine, Endpoint, Conn, endpoint, EndpointRef, Registry, endpoint_key, conn_key, endpoint_beq_iff,
  conn_beq_iff,
}
use atlas_game_layout.Registry.Conns.{
  closes, has_port, reset_state, changes, register, unregister, online, disconnect,
}

module _ {Time : Type 0} where
  -- Resetting the state of a player leaves the connections and the endpoints alone.
  reset_state_keeps :
      (r : Registry Time) (p : String)
      → ((reset_state r p).conns ≡ r.conns)
        × ((reset_state r p).endpoints ≡ r.endpoints)
        × ((reset_state r p).ports ≡ r.ports)
  unfolding reset_state
  reset_state_keeps r p = ground arith

  -- After a registration the player has the new connection, the others have theirs, and what is
  -- closed is the old connection, where it is another one and its kind has a port.
  pub register-conns :
      (en : Engine) (r : Registry Time) (p q : String) (c : Conn)
      → (lookup q (register en r p c).0.conns ≡ (if p == q then some c else lookup q r.conns))
        × ((register en r p c).2 ≡ elim (lookup p r.conns) [
          | none ↦ []
          | some old ↦ if not (old == c) && has_port r old then closes old ∷ [] else []
        ])
  unfolding register
  register-conns en r p q c =
      let stored = record r {
        conns = insert p c r.conns;
        endpoints =
            insert (endpoint en c) (record { player_id = p; battle_id = c.battle_id }) r.endpoints;
      } in
      (ground (arith, lookup-insert p q c r.conns, reset_state_keeps stored p), ground arith)

  register-endpoints :
      (en : Engine) (r : Registry Time) (p : String) (c : Conn) (ep : Endpoint)
      → lookup ep (register en r p c).0.endpoints ≡ (
          if changes (lookup p r.conns) c && endpoint en c == ep
          then some (record { player_id = p; battle_id = c.battle_id })
          else lookup ep r.endpoints)
  unfolding register
  register-endpoints en r p c ep =
      let ref : EndpointRef = record { player_id = p; battle_id = c.battle_id } in
      let stored = record r {
        conns = insert p c r.conns;
        endpoints = insert (endpoint en c) ref r.endpoints;
      } in
      ground (arith, lookup-insert (endpoint en c) ep ref r.endpoints, reset_state_keeps stored p)

  disconnect_elsewhere :
      (en : Engine) (r : Registry Time) (c : Conn) (ep : Endpoint) (ref : EndpointRef)
      → lookup ep r.endpoints ≡ some ref
      → lookup ref.player_id r.conns ≡ some c
      → endpoint en c ≢ ep
      → ((disconnect en r ep).1 ≡ some ref) × ((disconnect en r ep).0.conns ≡ r.conns)
  unfolding disconnect
  disconnect_elsewhere en r c ep ref back at ne =
      ground (arith, endpoint_beq_iff (endpoint en c) ep)

  -- Where the old connection of a player is indexed as the player's, and the new one is at another
  -- endpoint: the end of the replaced connection, reported late, does not take the new one away;
  -- the event is still traced to the player, who stays online on the new connection.
  pub disconnect-replaced :
      (en : Engine) (r : Registry Time) (p : String) (old c : Conn) (ref : EndpointRef)
      → lookup p r.conns ≡ some old
      → lookup (endpoint en old) r.endpoints ≡ some ref
      → ref.player_id ≡ p
      → endpoint en old ≢ endpoint en c
      → let (r', owner) = disconnect en (register en r p c).0 (endpoint en old) in
        (owner ≡ some ref) × (lookup p r'.conns ≡ some c)
  disconnect-replaced en r p old c ref at back own ne =
      let r' = (register en r p c).0 in
      let now : lookup p r'.conns ≡ some c =
        ground (arith, str_iff p p, (register-conns en r p p c).0) in
      let kept : lookup (endpoint en old) r'.endpoints ≡ some ref = ground (
        arith,
        register-endpoints en r p c (endpoint en old),
        endpoint_beq_iff (endpoint en c) (endpoint en old),
      ) in
      let gone =
        disconnect_elsewhere en r' c (endpoint en old) ref kept (rw own now) (λ e. ne (sym e)) in
      (gone.0, rw gone.1 now)

  -- After a registration that changed the connection of a player, the end of that connection takes
  -- the player offline, and no other player.
  pub disconnect-registered :
      (en : Engine) (r : Registry Time) (p q : String) (c : Conn)
      → changes (lookup p r.conns) c ≡ true
      → let (r', owner) = disconnect en (register en r p c).0 (endpoint en c) in
        (owner ≡ some (record { player_id = p; battle_id = c.battle_id }))
        × (online r' q ≡ (if p == q then false else online r q))
  unfolding disconnect online
  disconnect-registered en r p q c new =
      let r' = (register en r p c).0 in
      let ref : EndpointRef = record { player_id = p; battle_id = c.battle_id } in
      let removed = record r' {
        endpoints = delete (endpoint en c) r'.endpoints;
        conns = delete p r'.conns;
      } in
      ground (
        arith,
        register-endpoints en r p c (endpoint en c),
        endpoint_beq_iff (endpoint en c) (endpoint en c),
        str_iff p p,
        (register-conns en r p p c).0,
        (register-conns en r p q c).0,
        lookup-delete p q r'.conns,
        reset_state_keeps removed p,
      )

  -- A player's late deregistration of another connection changes nothing.
  unregister_other :
      (r : Registry Time) (p : String) (old c : Conn)
      → lookup p r.conns ≡ some c
      → old ≢ c
      → unregister r p old ≡ r
  unfolding unregister
  unregister_other r p old c at ne = ground (arith, conn_beq_iff c old)

-- ===== src/Session/Takeover.antt =====
-- Logins that replace one another, `Bind` and `Unbind` of session.go, on one gateway and across gateways.
use atlas_game_layout.Common.{
  ℕ, Map, String, false, Option, none, some, ◌≡◌, ◌≢◌, lookup, lookup-insert, lookup-delete, delete,
  ◌==◌, nat_key, string_key, str_iff, arith, Option-cases, inl, inr,
}
use atlas_game_layout.Session.{
  Session, Conn, Route, Manager, Store, bound, bind, bind_local, persist_route, unbind, validate,
  delete_route_if_owned, player_by_ref, player_by_token, push_target, route_of, token_index_set,
  token_index_remove, drop_stale_refs, drop_old_token,
}

-- A route that was written is the one that is read next.
pub record IsWritten {S : Type 0} (store : Store S) : Type 0 where
  pub get-get_set :
      (s : S) (p : String) (r : Route) (ttl : ℕ) (old : Option Route)
      → (store.get_set s p r ttl).1 ≡ some old
      → store.get (store.get_set s p r ttl).0 p ≡ some (some r)

bind_local-session :
    (m : Manager) (p : String) (c : Conn) (token : String) (now : ℕ)
    → let (m', next) = bind_local m p c token now in
      (lookup p m'.local ≡ some next)
      × (next.conn ≡ some c)
      × (next.token ≡ token)
      × (m'.instance_id ≡ m.instance_id)
      × (next.player_id ≡ p)
unfolding bind_local
bind_local-session m p c token now =
    let next : Session = record {
      player_id = p;
      token = token;
      conn = some c;
      last_heartbeat = now;
    } in
    ground (arith, str_iff p p, lookup-insert p p next m.local)

-- Right after a login on a connection with an identity and with a token that is not empty, the
-- player is found by the identity of the connection and by the token, pushes go to the connection,
-- and a token that was replaced finds nobody.
pub bind_local-player_by :
    (m : Manager) (p : String) (c : Conn) (token : String) (now : ℕ)
    → c.ref ≢ ""
    → token ≢ ""
    → let m' = (bind_local m p c token now).0 in
      (player_by_ref m' c.ref ≡ some p)
      × (player_by_token m' token ≡ some p)
      × (push_target m' p ≡ some c)
      × ((prev : Session)
          → lookup p m.local ≡ some prev
          → prev.token ≢ token
          → player_by_token m' prev.token ≡ none)
unfolding player_by_ref player_by_token push_target bind_local token_index_set token_index_remove
bind_local-player_by m p c token now has_ref has_token = (
  ground (arith, str_iff c.ref "", str_iff c.ref c.ref, lookup-insert c.ref c.ref p refs),
  ground (arith, str_iff token "", str_iff token token, lookup-insert token token p toks),
  ground (arith, str_iff p p, lookup-insert p p (bind_local m p c token now).1 m.local),
  λ prev at ne. ground (
    arith,
    str_iff token "",
    str_iff prev.token token,
    str_iff token prev.token,
    str_iff prev.token prev.token,
    lookup-insert token prev.token p (delete prev.token m.toks),
    lookup-insert token prev.token p m.toks,
    lookup-delete prev.token prev.token m.toks,
  ),
)
  where
    refs : Map String String
    refs = drop_stale_refs m.refs (lookup p m.local) (bind_local m p c token now).1

    toks : Map String String
    toks = drop_old_token m.toks (lookup p m.local) token

module _ {S : Type 0} (store : Store S) where
  -- A late deregistration of a replaced connection changes nothing after a login of the player on
  -- another connection, whatever the store did.
  pub unbind-bind_local :
      (s : S) (m : Manager) (p : String) (c : Conn) (token : String) (now old_id : ℕ)
      → c.id ≢ old_id
      → let m' = (bind_local m p c token now).0 in unbind store s m' p old_id ≡ (s, m')
  unfolding unbind
  unbind-bind_local s m p c token now old_id ne =
      let (here, on, _, _, _) = bind_local-session m p c token now in ground (arith, here, on)

  -- What the store holds after a login that it took.
  bind-get :
      (s : S) (b : Manager) (p : String) (c : Conn) (token : String) (now : ℕ) (old : Option Route)
      → IsWritten store
      → (bind store s b p (some c) token now).2 ≡ bound old
      → let (m', next) = bind_local b p c token now in
        (store.get (bind store s b p (some c) token now).0 p ≡ some (some (route_of m' next now)))
        × ((token == "") ≡ false)
  unfolding bind persist_route
  bind-get s b p c token now old w ok =
      let (m', next) = bind_local b p c token now in
      let (_, _, _, _, own) = bind_local-session b p c token now in
      elim (Option-cases (store.get_set s next.player_id (route_of m' next now) m'.ttl).1) [
        | inl e ↦ absurd (ground arith)
        | inr (o, e) ↦
            let got = w.get-get_set s next.player_id (route_of m' next now) m'.ttl o e in
            ground (arith, own, got)
      ]

  -- On a store that reads a route back that it took: after a login on gateway B that the store
  -- took, whatever connection of the player another gateway A deregisters, the route of B stays,
  -- and of all tokens only that of the login on B is valid.
  pub unbind-bind_elsewhere :
      (s : S) (a b : Manager) (p : String) (c : Conn) (token t : String) (now id : ℕ)
      (old : Option Route)
      → IsWritten store
      → a.instance_id ≢ b.instance_id
      → (bind store s b p (some c) token now).2 ≡ bound old
      → let s' = (bind store s b p (some c) token now).0 in
        ((unbind store s' a p id).0 ≡ s') × (validate store s' p t ≡ some (token == t))
  unfolding unbind delete_route_if_owned validate
  unbind-bind_elsewhere s a b p c token t now id old w apart ok =
      let (got, some_token) = bind-get s b p c token now old w ok in
      let (_, _, is_token, on_b, _) = bind_local-session b p c token now in
      (
        ground (arith, got, on_b, str_iff b.instance_id a.instance_id),
        ground (arith, got, is_token),
      )

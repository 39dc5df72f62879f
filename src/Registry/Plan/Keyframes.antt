-- ===== src/Registry/Plan/Keyframes.antt =====
-- The rate limit on key frame requests.
use atlas_game_layout.Common.{
  ℕ, ◌-◌, ◌<◌, String, Bool, true, false, not, ◌&&◌, List, some, ◌≡◌, lookup, insert, is_some,
  Option-cases, inl, inr, lookup-insert, string_key, str_iff, if◌then◌else◌, if_elim, arith,
}
use atlas_game_layout.Registry.State.{Conn, Engine, Registry, endpoint, endpoint_key, conn_key}
use atlas_game_layout.Registry.Conns.{register, changes, reset_state}
use atlas_game_layout.Registry.Plan.{
  commit_send, request_keyframe, state_or_new, negotiate, agreed, too_soon,
}

module _ {Time : Type 0} where
  -- A request is granted exactly where the node sends deltas, the player has a connection, and the
  -- last request that was granted is an interval ago.
  request_keyframe_iff :
      (r : Registry Time) (now : ℕ) (p : String)
      → (request_keyframe r now p).1 ≡ (
          r.delta
          && (is_some (lookup p r.conns)
              && not (
                  too_soon
                    (state_or_new (lookup p r.states)).last_keyframe_req
                    now
                    r.key_interval)))
  unfolding request_keyframe
  request_keyframe_iff r now p = ground arith

  -- The last request that was granted to a player was at the given time.
  abbrev Granted : Registry Time → String → ℕ → ℕ → Type 0
  Granted r p t interval =
      ((state_or_new (lookup p r.states)).last_keyframe_req ≡ some t) × (r.key_interval ≡ interval)

  request_keyframe-Granted :
      (r : Registry Time) (first : ℕ) (p : String)
      → (request_keyframe r first p).1 ≡ true
      → Granted (request_keyframe r first p).0 p first r.key_interval
  unfolding request_keyframe
  request_keyframe-Granted r first p h =
      let st = record (state_or_new (lookup p r.states)) {
        last_keyframe_req = some first;
        keyframe_requested = true;
      } in
      ground (arith, str_iff p p, lookup-insert p p st r.states)

  refused-Granted :
      (r : Registry Time) (now : ℕ) (p : String) (t interval : ℕ)
      → (request_keyframe r now p).1 ≡ false
      → Granted r p t interval
      → Granted (request_keyframe r now p).0 p t interval
  unfolding request_keyframe
  refused-Granted r now p t interval h g =
      ground (arith, str_iff p p, lookup-insert p p (state_or_new (lookup p r.states)) r.states)

  commit_send-Granted :
      (r : Registry Time) (p : String) (c : Conn) (seq : ℕ) (full : Bool) (t interval : ℕ)
      → Granted r p t interval
      → Granted (commit_send r p c seq full) p t interval
  unfolding commit_send
  commit_send-Granted r p c seq full t interval g =
      let old = state_or_new (lookup p r.states) in
      let st = record old {
        last_seq = seq;
        keyframe_requested = if full then false else old.keyframe_requested;
      } in
      ground (arith, str_iff p p, lookup-insert p p st r.states)

  negotiate-Granted :
      (en : Engine) (r : Registry Time) (p : String) (accepted : List ℕ) (t interval : ℕ)
      → Granted r p t interval
      → Granted (negotiate en r p accepted).0 p t interval
  unfolding negotiate
  negotiate-Granted en r p accepted t interval g =
      let st = record (state_or_new (lookup p r.states)) { payload_ver = agreed en r p accepted } in
      ground (arith, str_iff p p, lookup-insert p p st r.states)

  reset_state-Granted :
      (r : Registry Time) (p : String) (t interval : ℕ)
      → Granted r p t interval
      → Granted (reset_state r p) p t interval
  unfolding reset_state
  reset_state-Granted r p t interval g = elim (Option-cases (lookup p r.states)) [
    | inl e ↦ ground arith
    | inr (st, e) ↦ ground (
      arith,
      str_iff p p,
      lookup-insert p p (record st { last_seq = 0; keyframe_requested = false }) r.states,
    )
  ]

  register-Granted :
      (en : Engine) (r : Registry Time) (p : String) (c : Conn) (t interval : ℕ)
      → Granted r p t interval
      → Granted (register en r p c).0 p t interval
  unfolding register
  register-Granted en r p c t interval g =
      if_elim (λ s. Granted s p t interval) (changes (lookup p r.conns) c)
        (λ _. reset_state-Granted indexed p t interval g) (λ _. g)
    where
      indexed : Registry Time
      indexed = record r {
        conns = insert p c r.conns;
        endpoints =
            insert (endpoint en c) (record { player_id = p; battle_id = c.battle_id }) r.endpoints;
      }

  -- What may happen to the player's state between two requests: frames are sent to its connection
  -- and its payload version is agreed again.
  pub data Between (en : Engine) (p : String) : Registry Time → Registry Time → Type 0 where
    here : {r : Registry Time} → Between en p r r
    sends :
        {r s : Registry Time} (c : Conn) (seq : ℕ) (full : Bool)
        → Between en p r s
        → Between en p r (commit_send s p c seq full)
    agrees :
        {r s : Registry Time} (accepted : List ℕ)
        → Between en p r s
        → Between en p r (negotiate en s p accepted).0
    refused :
        {r s : Registry Time} (now : ℕ)
        → (request_keyframe s now p).1 ≡ false
        → Between en p r s
        → Between en p r (request_keyframe s now p).0
    reconnects :
        {r s : Registry Time} (c : Conn) → Between en p r s → Between en p r (register en s p c).0

  Between-Granted :
      (en : Engine) (p : String) (t interval : ℕ) {r s : Registry Time}
      → Between en p r s
      → Granted r p t interval
      → Granted s p t interval
  Between-Granted en p t i here g = g
  Between-Granted en p t i (sends {s = s} c seq full b) g =
      commit_send-Granted s p c seq full t i (Between-Granted en p t i b g)
  Between-Granted en p t i (agrees {s = s} accepted b) g =
      negotiate-Granted en s p accepted t i (Between-Granted en p t i b g)
  Between-Granted en p t i (refused {s = s} now h b) g =
      refused-Granted s now p t i h (Between-Granted en p t i b g)
  Between-Granted en p t i (reconnects {s = s} c b) g =
      register-Granted en s p c t i (Between-Granted en p t i b g)

  -- After a request that was granted, whatever frames are sent to the player, whatever version it
  -- agrees on, whatever other requests are refused, and also if it comes back on another
  -- connection: a request within the interval is refused.
  pub request_keyframe_limit :
      (en : Engine) (p : String) (r s : Registry Time) (first now : ℕ)
      → (request_keyframe r first p).1 ≡ true
      → Between en p (request_keyframe r first p).0 s
      → now - first < r.key_interval
      → (request_keyframe s now p).1 ≡ false
  request_keyframe_limit en p r s first now h b soon =
      let g = Between-Granted en p first r.key_interval b (request_keyframe-Granted r first p h) in
      ground (arith, request_keyframe_iff s now p)

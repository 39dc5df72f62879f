-- ===== src/Registry/Plan/Decide.antt =====
-- Who is sent a delta, and who is sent the whole frame.
use atlas_game_layout.Common.{
  ℕ, String, Bool, true, false, List, [], ◌∷◌, Option, none, some, ◌≡◌, ◌≢◌, ◌⊎◌, refl, lookup,
  lookup-insert, All, nat_key, string_key, str_iff, if◌then◌else◌, arith, Bool-cases, Option-cases,
  inl, inr,
}
use atlas_game_layout.Registry.State.{Engine, Conn, ClientState, Registry, delta_version, conn_key}
use atlas_game_layout.Registry.Conns.{register, reset_state, changes}
use atlas_game_layout.Registry.Plan.{
  Target, decide_full, decide, plan_targets, commit_send, request_keyframe, next_u64, state_or_new,
  is_current,
}

-- What is true of a player that is sent a delta of a frame.
module _ {Time : Type 0} where
  pub record TakesDelta (en : Engine) (r : Registry Time) (seq : ℕ) (t : Target) : Type 0 where
    pub state : ClientState
    pub at : lookup t.player_id r.states ≡ some state
    pub continues : next_u64 state.last_seq ≡ seq
    pub negotiated_delta : state.payload_ver ≡ delta_version
    pub not_asking : state.keyframe_requested ≡ false
    pub no_datagram : t.conn.kind ≢ en.udp
    pub version : t.ver ≡ delta_version

  abbrev pub IsTarget : Engine → Registry Time → ℕ → Bool → Target → Type 0
  IsTarget en r seq ok t =
      (lookup t.player_id r.conns ≡ some t.conn)
      × (((t.full ≡ true) × (t.ver ≡ r.push_ver))
          ⊎ ((t.full ≡ false) × (ok ≡ true) × TakesDelta en r seq t))

  pub takes_delta :
      (en : Engine) (r : Registry Time) (seq : ℕ) (ok : Bool) (p : String) (c : Conn)
      → decide_full en r c.kind (lookup p r.states) seq ok ≡ false
      → (ok ≡ true)
        × TakesDelta en r seq
            (record { player_id = p; conn = c; ver = delta_version; full = false })
  unfolding decide_full
  takes_delta en r seq ok p c h = elim (Option-cases (lookup p r.states)) [
    | inl new ↦ absurd (ground arith)
    | inr (st, at) ↦ (
      ground arith,
      record {
        state = st;
        at = at;
        continues = ground arith;
        negotiated_delta = ground arith;
        not_asking = ground arith;
        no_datagram = ground (arith, str_iff c.kind en.udp);
        version = refl;
      },
    )
  ]

  target :
      (en : Engine) (r : Registry Time) (seq : ℕ) (ok : Bool) (p : String) (c : Conn)
      → lookup p r.conns ≡ some c
      → let (ver, full) = decide en r c.kind (lookup p r.states) seq ok in
        IsTarget en r seq ok (record { player_id = p; conn = c; ver = ver; full = full })
  unfolding decide
  target en r seq ok p c at =
      elim (Bool-cases (decide_full en r c.kind (lookup p r.states) seq ok)) [
        | inl e ↦ rw e (at, inl (refl, refl))
        | inr e ↦
            let (linked, takes) = takes_delta en r seq ok p c e in
            rw e (at, inr (refl, linked, takes))
      ]

  -- Every target of a tick has a connection. It is sent the whole frame in the version of the
  -- node; or it is sent the delta, and then the link is the previous frame, the last frame that
  -- was sent to it is the previous one, it agreed on deltas, it is not asking for a key frame, and
  -- it is not on the datagram face.
  pub plan_targets-IsTarget :
      (en : Engine) (r : Registry Time) (seq : ℕ) (ok : Bool) (players : List String)
      → All (IsTarget en r seq ok) (plan_targets en r seq ok players)
  unfolding plan_targets
  plan_targets-IsTarget en r seq ok [] = tt
  plan_targets-IsTarget en r seq ok (p ∷ ps) = elim (Option-cases (lookup p r.conns)) [
    | inl e ↦ rw (e, plan_targets) (plan_targets-IsTarget en r seq ok ps)
    | inr (c, e) ↦
        rw (e, plan_targets) (target en r seq ok p c e, plan_targets-IsTarget en r seq ok ps)
  ]

  -- The state of a player after a registration that changes the connection.
  register-states :
      (en : Engine) (r : Registry Time) (p : String) (c : Conn)
      → changes (lookup p r.conns) c ≡ true
      → lookup p (register en r p c).0.states ≡ elim (lookup p r.states) [
        | none ↦ none
        | some st ↦ some (record st { last_seq = 0; keyframe_requested = false })
      ]
  unfolding register reset_state
  register-states en r p c new = elim (Option-cases (lookup p r.states)) [
    | inl e ↦ ground arith
    | inr (st, e) ↦ ground (
      arith,
      str_iff p p,
      lookup-insert p p (record st { last_seq = 0; keyframe_requested = false }) r.states,
    )
  ]

  unsent_decide_full :
      (en : Engine) (r : Registry Time) (kind : String) (o : Option ClientState) (seq : ℕ)
      (ok : Bool)
      → ((st : ClientState) → o ≡ some st → st.last_seq ≡ 0)
      → seq ≢ 1
      → decide_full en r kind o seq ok ≡ true
  unfolding decide_full
  unsent_decide_full en r kind none seq ok h ne = ground arith
  unsent_decide_full en r kind (some st) seq ok h ne = ground (arith, h st refl)

  asking_decide_full :
      (en : Engine) (r : Registry Time) (kind : String) (st : ClientState) (seq : ℕ) (ok : Bool)
      → st.keyframe_requested ≡ true
      → decide_full en r kind (some st) seq ok ≡ true
  unfolding decide_full
  asking_decide_full en r kind st seq ok h = ground arith

  -- A player on a new connection is sent the whole frame next, on every tick but that of frame 1.
  pub register-decide_full :
      (en : Engine) (r : Registry Time) (p : String) (c : Conn) (seq : ℕ) (ok : Bool)
      → changes (lookup p r.conns) c ≡ true
      → seq ≢ 1
      → let r' = (register en r p c).0 in
        decide_full en r' c.kind (lookup p r'.states) seq ok ≡ true
  register-decide_full en r p c seq ok new h =
      unsent_decide_full en (register en r p c).0 c.kind _ seq ok
        (λ st e. elim (Option-cases (lookup p r.states)) [
          | inl none_yet ↦ ground (arith, register-states en r p c new)
          | inr (old, at) ↦ ground (arith, register-states en r p c new)
        ])
        h

  granted_state :
      (r : Registry Time) (now : ℕ) (p : String)
      → (request_keyframe r now p).1 ≡ true
      → (st : ClientState) × (lookup p (request_keyframe r now p).0.states ≡ some st)
        × (st.keyframe_requested ≡ true)
        × (st.last_keyframe_req ≡ some now)
  unfolding request_keyframe
  granted_state r now p h =
      let st = record (state_or_new (lookup p r.states)) {
        last_keyframe_req = some now;
        keyframe_requested = true;
      } in
      (st, ground (arith, str_iff p p, lookup-insert p p st r.states), refl, refl)

  commit_send-asking :
      (r : Registry Time) (p : String) (c : Conn) (sent : ℕ) (st : ClientState)
      → lookup p r.states ≡ some st
      → st.keyframe_requested ≡ true
      → (st' : ClientState) × (lookup p (commit_send r p c sent false).states ≡ some st')
        × (st'.keyframe_requested ≡ true)
  unfolding commit_send
  commit_send-asking r p c sent st at asks =
      let st' = record st {
        last_seq = if is_current (lookup p r.conns) c then sent else st.last_seq;
      } in
      (st', ground (arith, str_iff p p, lookup-insert p p st' r.states), asks)

  -- Once a request for a key frame is granted, the player is sent the whole frame, whatever the
  -- link and its own last frame are; the delta of a frame in between does not settle the request.
  pub request_keyframe-decide_full :
      (en : Engine) (r : Registry Time) (now : ℕ) (p : String) (c : Conn) (sent seq : ℕ) (ok : Bool)
      → (request_keyframe r now p).1 ≡ true
      → let r' = (request_keyframe r now p).0 in
        let r'' = commit_send r' p c sent false in
        (decide_full en r' c.kind (lookup p r'.states) seq ok ≡ true)
        × (decide_full en r'' c.kind (lookup p r''.states) seq ok ≡ true)
  request_keyframe-decide_full en r now p c sent seq ok h =
      let (st, at, asks, _) = granted_state r now p h in
      let (st', at', asks') = commit_send-asking (request_keyframe r now p).0 p c sent st at asks in
      (
        rw at (asking_decide_full en _ c.kind st seq ok asks),
        rw at' (asking_decide_full en _ c.kind st' seq ok asks'),
      )

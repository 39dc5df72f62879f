-- ===== src/Session/Index/Runs.antt =====
-- Whole runs of a manager, over any store.
use atlas_game_layout.Common.{
  ℕ, String, Bool, List, [], ◌∷◌, Option, none, some, ◌≡◌, refl, lookup, ◌==◌, string_key, if_elim,
  arith, Option-cases, inl, inr,
}
use atlas_game_layout.Session.{
  Session, Conn, Manager, Store, BindResult, new_manager, bind, unbind, heartbeat, player_by_ref,
  player_by_token, local_session, ref_of, on_conn,
}
use atlas_game_layout.Session.Expiry.{
  SweepState, sweep_one, sweep_all, sweep_once, drop_expired, expired_ids, is_expired,
}
use atlas_game_layout.Session.Sweep.{sweep_one-manager}
use atlas_game_layout.Session.Index.{
  IsIndexed, bind_local-IsIndexed, drop_session-IsIndexed, beat-IsIndexed,
}

-- A call of a manager, with the time on its clock.
pub data Call : Type 0 where
  binds : String → Option Conn → String → ℕ → Call
  unbinds : String → ℕ → Call
  beats : String → String → ℕ → Call
  sweeps : ℕ → Call

module _ {S : Type 0} (store : Store S) where
  unfoldable pub step : S → Manager → Call → S × Manager
  step s m (binds p c token now) = let (s', m', _) = bind store s m p c token now in (s', m')
  step s m (unbinds p id) = unbind store s m p id
  step s m (beats p token now) = let (s', m', _) = heartbeat store s m p token now in (s', m')
  step s m (sweeps now) = let st = sweep_once store s m now in (st.store_state, st.manager)

  unfoldable pub run : S → Manager → List Call → S × Manager
  unfolding step
  run s m [] = (s, m)
  run s m (c ∷ cs) = let (s', m') = step s m c in run s' m' cs

  bind-IsIndexed :
      (s : S) (m : Manager) (p : String) (o : Option Conn) (token : String) (now : ℕ)
      → IsIndexed m
      → IsIndexed (bind store s m p o token now).1
  unfolding bind
  bind-IsIndexed s m p none token now i = i
  bind-IsIndexed s m p (some c) token now i =
      if_elim (λ (x : S × Manager × BindResult). IsIndexed x.1) (p == "") (λ _. i)
        λ _.
          if_elim (λ (x : S × Manager × BindResult). IsIndexed x.1) (token == "") (λ _. i)
            (λ _. bind_local-IsIndexed m p c token now i)

  unbind-IsIndexed :
      (s : S) (m : Manager) (p : String) (id : ℕ)
      → IsIndexed m
      → IsIndexed (unbind store s m p id).1
  unfolding unbind
  unbind-IsIndexed s m p id i = elim (Option-cases (lookup p m.local)) [
    | inl e ↦ rw (e, unbind) i
    | inr (sess, e) ↦
        rw (e, unbind)
          (if_elim (λ (x : S × Manager). IsIndexed x.1) (on_conn sess.conn id)
            (λ _. drop_session-IsIndexed m p sess e i) (λ _. i))
  ]

  heartbeat-IsIndexed :
      (s : S) (m : Manager) (p token : String) (now : ℕ)
      → IsIndexed m
      → IsIndexed (heartbeat store s m p token now).1
  unfolding heartbeat
  heartbeat-IsIndexed s m p token now i = elim (Option-cases (lookup p m.local)) [
    | inl e ↦ rw (e, heartbeat) i
    | inr (sess, e) ↦
        rw (e, heartbeat)
          (if_elim (λ (x : S × Manager × Bool). IsIndexed x.1) (sess.token == token)
            (λ _. beat-IsIndexed m p sess now e i) (λ _. i))
  ]

  drop_expired-IsIndexed :
      (now : ℕ) (m : Manager) (removed : ℕ) (p : String)
      → IsIndexed m
      → IsIndexed (drop_expired now m removed p).0
  unfolding drop_expired
  drop_expired-IsIndexed now m removed p i = elim (Option-cases (lookup p m.local)) [
    | inl e ↦ rw (e, drop_expired) i
    | inr (s, e) ↦
        rw (e, drop_expired)
          (if_elim (λ (x : Manager × ℕ). IsIndexed x.0) (is_expired m now s)
            (λ _. drop_session-IsIndexed m p s e i) (λ _. i))
  ]

  sweep_one-IsIndexed :
      (now : ℕ) (st : SweepState S) (p : String)
      → IsIndexed st.manager
      → IsIndexed (sweep_one store now st p).manager
  sweep_one-IsIndexed now st p i =
      rw (sweep_one-manager store now st p).0 (drop_expired-IsIndexed now st.manager st.removed p i)

  sweep_all-IsIndexed :
      (now : ℕ) (st : SweepState S) (ids : List String)
      → IsIndexed st.manager
      → IsIndexed (sweep_all store now st ids).manager
  unfolding sweep_all
  sweep_all-IsIndexed now st [] i = i
  sweep_all-IsIndexed now st (p ∷ ids) i =
      sweep_all-IsIndexed now (sweep_one store now st p) ids (sweep_one-IsIndexed now st p i)

  step-IsIndexed : (s : S) (m : Manager) (c : Call) → IsIndexed m → IsIndexed (step s m c).1
  unfolding step sweep_once
  step-IsIndexed s m (binds p c token now) i = bind-IsIndexed s m p c token now i
  step-IsIndexed s m (unbinds p id) i = unbind-IsIndexed s m p id i
  step-IsIndexed s m (beats p token now) i = heartbeat-IsIndexed s m p token now i
  step-IsIndexed s m (sweeps now) i =
      sweep_all-IsIndexed now (record { store_state = s; manager = m; removed = 0; swept = [] })
        (expired_ids m now m.local) i

  run-IsIndexed : (s : S) (m : Manager) (cs : List Call) → IsIndexed m → IsIndexed (run s m cs).1
  unfolding run
  run-IsIndexed s m [] i = i
  run-IsIndexed s m (c ∷ cs) i =
      run-IsIndexed (step s m c).0 (step s m c).1 cs (step-IsIndexed s m c i)

  new_manager-IsIndexed :
      (default_ttl : ℕ) (id : String) (ttl interval : ℕ)
      → IsIndexed (new_manager default_ttl id ttl interval)
  unfolding new_manager
  new_manager-IsIndexed default_ttl id ttl interval = record {
    by_ref = record { live = λ k q e. absurd (ground arith); no_empty = refl };
    by_token = record { live = λ k q e. absurd (ground arith); no_empty = refl };
  }

  -- After any calls on a new manager, whatever the store answers: a player who is found by the
  -- identity of a connection has a local session on a connection of that identity, and one who is
  -- found by a token has a local session with that token.
  pub run-player_by :
      (s : S) (default_ttl : ℕ) (id : String) (ttl interval : ℕ) (cs : List Call) (k p : String)
      → let m = (run s (new_manager default_ttl id ttl interval) cs).1 in
        (player_by_ref m k ≡ some p → (t : Session) × (local_session m p ≡ some t) × (ref_of t ≡ k))
        × (player_by_token m k ≡ some p
            → (t : Session) × (local_session m p ≡ some t) × (t.token ≡ k))
  unfolding player_by_ref player_by_token local_session
  run-player_by s default_ttl id ttl interval cs k p =
      let i =
        run-IsIndexed s (new_manager default_ttl id ttl interval) cs
          (new_manager-IsIndexed default_ttl id ttl interval) in
      (λ e. i.by_ref.live k p (ground arith), λ e. i.by_token.live k p (ground arith))

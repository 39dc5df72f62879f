-- ===== src/Registry/Publish/Targets.antt =====
-- The book-keeping of a tick: what the registry remembers of a target after its push.
use atlas_game_layout.Common.{
  ℕ, String, Bool, true, false, not, ◌&&◌, none, some, ◌≡◌, ◌≢◌, Bytes, lookup, lookup-insert,
  lookup-delete, string_key, str_iff, if◌then◌else◌, arith, Option-cases, inl, inr,
}
use atlas_game_layout.Registry.State.{Conn, Registry, conn_key, conn_beq_iff}
use atlas_game_layout.Registry.Conns.{has_port, unregister, reset_state}
use atlas_game_layout.Registry.Plan.{Target, commit_send, state_or_new}
use atlas_game_layout.Registry.Publish.{Wire, gone, raw_push, push_target}

module _ {Time : Type 0} where
  commit_send_state :
      (r : Registry Time) (p : String) (c : Conn) (n : ℕ) (full : Bool)
      → lookup p r.conns ≡ some c
      → let before = state_or_new (lookup p r.states) in
        let r' = commit_send r p c n full in
        (lookup p r'.states
          ≡ some (record before {
            last_seq = n;
            keyframe_requested = if full then false else before.keyframe_requested;
          }))
        × (r'.conns ≡ r.conns)
  unfolding commit_send
  commit_send_state r p c n full at =
      let before = state_or_new (lookup p r.states) in
      let st = record before {
        last_seq = n;
        keyframe_requested = if full then false else before.keyframe_requested;
      } in
      ground (arith, str_iff p p, conn_beq_iff c c, lookup-insert p p st r.states)

  unregister_state :
      (r : Registry Time) (p : String) (c : Conn)
      → lookup p r.conns ≡ some c
      → let r' = unregister r p c in
        ((state_or_new (lookup p r'.states)).last_seq ≡ 0)
        × ((state_or_new (lookup p r'.states)).payload_ver
            ≡ (state_or_new (lookup p r.states)).payload_ver)
        × (lookup p r'.conns ≡ none)
  unfolding unregister reset_state
  unregister_state r p c at = elim (Option-cases (lookup p r.states)) [
    | inl e ↦ ground (arith, str_iff p p, conn_beq_iff c c, lookup-delete p p r.conns)
    | inr (st, e) ↦ ground (
      arith,
      str_iff p p,
      conn_beq_iff c c,
      lookup-delete p p r.conns,
      lookup-insert p p (record st { last_seq = 0; keyframe_requested = false }) r.states,
    )
  ]

  -- A push to the current connection of a player that is answered by success is written down as
  -- the last frame of the player, and settles a request for a key frame if it was whole; one that
  -- is answered by a lost connection takes the connection away and forgets the last frame; any
  -- other failure leaves the registry as it was.
  pub push_target_lem :
      (w : Wire Time) (n : ℕ) (full delta : Bytes) (r : Registry Time) (t : Target)
      → lookup t.player_id r.conns ≡ some t.conn
      → let (r', e, _) = push_target w n full delta r t in
        let before = state_or_new (lookup t.player_id r.states) in
        let after = state_or_new (lookup t.player_id r'.states) in
        (e ≡ none
          → (after.last_seq ≡ n)
            × (after.keyframe_requested ≡ not t.full && before.keyframe_requested)
            × (after.payload_ver ≡ before.payload_ver)
            × (lookup t.player_id r'.conns ≡ some t.conn))
        × (has_port r t.conn ≡ true
            → w.push_raw (raw_push full delta t) ≡ gone
            → (after.last_seq ≡ 0)
              × (after.payload_ver ≡ before.payload_ver)
              × (lookup t.player_id r'.conns ≡ none))
        × (e ≢ none → w.push_raw (raw_push full delta t) ≢ gone → r' ≡ r)
  unfolding push_target
  push_target_lem w n full delta r t at =
      let kept = commit_send_state r t.player_id t.conn n t.full at in
      let lost = unregister_state r t.player_id t.conn at in ground (arith, kept, lost)

-- ===== src/Battle/Roster/Runs.antt =====
-- Every message of services/battle/internal/actor as a change of the roster, and runs of them.
use atlas_game_layout.Common.{
  ℕ, suc, String, Bool, true, false, ◌&&◌, List, Option, none, some, ◌≡◌, refl, sym, ◌∙◌, ap, arith,
  Bool-cases, Option-cases, inl, inr, ◌==◌, string_key, if_elim, ltb, Bytes,
}
use atlas_game_layout.Battle.{
  Battle, Config, World, has, resume_session, tell, begin_seating, settle, Outcome, start_battle,
  publish_frames, sorted_keys, join_session, player_input, request_keyframe,
}
use atlas_game_layout.Battle.Quiet.{still, begin_seating-Quiet, start_battle-Quiet, settle-Ended}
use atlas_game_layout.Simulator.{State}
use atlas_game_layout.Battle.Offline.{rearm_offline_timers}
use atlas_game_layout.Battle.Tickets.{Ticket, create, enlist, merged_roster, admit, admit_elim}
use atlas_game_layout.Battle.Frames.{
  FrameResult, SessionSnapshot, on_frame_result, check_settle, settle_snapshot, settle_decoded,
  frame_message, send_frame_input, request_frame_keyframe, sender_player,
}
use atlas_game_layout.Battle.Sync.{ReconnectResponse, join_battle}
use atlas_game_layout.Battle.Migrate.{
  MigrationState, names_other, exported, on_prepare_migration, on_resume_migration,
  enter_migration_window, exit_migration_window, export_state,
}
use atlas_game_layout.Battle.Messages.{
  Message, creates, admits, joins, sends_input, asks_keyframe, goes_online, goes_offline, times_out,
  fires, opens, frame_done, prepares, resumes, Ports, handle,
}
use atlas_game_layout.Battle.Roster.{view, Change, enlists, ends}
use atlas_game_layout.Battle.Roster.Steps.{
  IsNamed, Idle, Idle-Change, Idle-trans, Quiet-Idle, hold_offline_timers-Idle,
  rearm_offline_timers-Idle, on_player_online-Change, on_player_offline-Change,
  on_offline_timeout-Change, settled-once,
}
use atlas_game_layout.Battle.Roster.Names.{
  keeps-IsNamed, on_player_online-IsNamed, on_player_offline-IsNamed, on_offline_timeout-IsNamed,
  add_players-has, add_players-IsNamed, enlist-has, enlist-Unique, merged_roster-none,
}

abbrev pub Good : (String → Bool) → Battle → Battle → Type 0
Good online b c = Change online (view b) (view c) × IsNamed c

module _ (online : String → Bool) (b : Battle) (n : IsNamed b) where
  Idle-Good : (c : Battle) → Idle b c → Good online b c
  Idle-Good c i = (Idle-Change online b c i, keeps-IsNamed b c i.0.0 n)

  unmoved : Good online b b
  unmoved = Idle-Good b (Quiet-Idle b b (still b))

  create-Good : (id : String) (ps : List String) → Good online b (create id ps b)
  unfolding create view
  create-Good id ps = (
    enlists (λ q h. add_players-has q ps b.players h) (λ q. refl) (refl, (λ k. refl), λ x. refl),
    add_players-IsNamed ps b.players n,
  )

  sends_input-Good :
      (w : World) (sender : Option String) (frame : ℕ) (payload : List ℕ)
      → Good online b (send_frame_input w sender frame payload b).0
  unfolding send_frame_input view
  sends_input-Good w sender frame payload = elim (Option-cases (sender_player sender)) [
    | inl e ↦ rw (e, send_frame_input) unmoved
    | inr p ↦
        rw (p.1, send_frame_input)
          (elim (Bool-cases (has p.0 b.players)) [
            | inl t ↦ rw (t) (
                Idle-Good (tell (player_input p.0 frame payload) b) (
                  Quiet-Idle b (tell (player_input p.0 frame payload) b)
                    (refl, refl, refl, (λ k. refl), λ x. refl)))
            | inr f ↦ rw (f) unmoved
          ])
  ]

  asks_keyframe-Good :
      (sender : Option String) (seq : ℕ) → Good online b (request_frame_keyframe sender seq b).0
  unfolding request_frame_keyframe
  asks_keyframe-Good sender seq = elim (Option-cases (sender_player sender)) [
    | inl e ↦ rw (e, request_frame_keyframe) unmoved
    | inr p ↦
        rw (p.1, request_frame_keyframe)
          (elim (Bool-cases (has p.0 b.players)) [
            | inl t ↦ rw (t) (
                Idle-Good (tell (request_keyframe p.0 seq) b) (
                  Quiet-Idle b (tell (request_keyframe p.0 seq) b)
                    (refl, refl, refl, (λ k. refl), λ x. refl)))
            | inr f ↦ rw (f) unmoved
          ])
  ]

  joins-Good :
      (session : ℕ → Option ReconnectResponse) (cfg : Config) (w : World) (version : ℕ)
      (sender : Option String)
      → Good online b (join_battle session cfg w version sender b).0
  unfolding join_battle
  joins-Good session cfg w version sender = elim (Option-cases (sender_player sender)) [
    | inl e ↦ rw (e, join_battle) unmoved
    | inr p ↦
        rw (p.1, join_battle)
          (let joined = tell (join_session p.0) b in
            let told =
              Idle-Good joined (Quiet-Idle b joined (refl, refl, refl, (λ k. refl), λ x. refl)) in
            elim (Bool-cases (has p.0 b.players)) [
              | inl t ↦ rw (t) (elim (Bool-cases (w.delivered (join_session p.0))) [
                | inl t ↦ rw (t) told
                | inr f ↦ rw (f) told
              ])
              | inr f ↦ rw (f) unmoved
            ])
  ]

  admits-Good :
      (encode : Ticket → Bytes → Option Bytes) (crc32 : String → ℕ) (cfg : Config) (w : World)
      (id : String) (ps : List String)
      → Good online b (admit encode crc32 cfg w id ps b).0
  unfolding view
  admits-Good encode crc32 cfg w id ps =
      admit_elim encode crc32 cfg w (Good online b) id ps b unmoved λ a.
        let names = merged_roster b ps in
        let listed : Battle = record b {
          match_id = id;
          players = enlist names b.players;
          admission = some a;
        } in
        let q = begin_seating-Quiet cfg w listed in
        (
          enlists (λ x h. ap (λ s. has x s) q.0 ∙ ground (arith, enlist-has x names b.players, h))
              (λ x. ap (λ s. has x s) q.1) (q.2, q.3, q.4),
          keeps-IsNamed listed (begin_seating cfg w listed) q.0 (
            enlist-Unique names b.players n.0,
            ground (arith, enlist-has "" names b.players, n.1, merged_roster-none b ps n.1),
          ),
        )

  ends-Good :
      (cfg : Config) (w : World) (out : Outcome) (c : Battle)
      → Idle b c
      → b.settled ≡ false
      → Good online b (settle cfg w out c)
  unfolding view
  ends-Good cfg w out c i h =
      let s = settle-Ended cfg w out c (i.0.1 ∙ h) in
      (
        ends out.winner (λ q. ap (λ m. has q m) (s.0 ∙ i.0.0)) (λ q. ap (λ m. has q m) s.1 ∙ i.1 q)
            (
              h,
              s.2,
              (λ k. s.3 k ∙ ap suc (i.0.2 k)),
              settled-once out.winner b c i.0.0 n.0 i.0.3 (settle cfg w out c) s.4,
            ),
        keeps-IsNamed b (settle cfg w out c) (s.0 ∙ i.0.0) n,
      )

  settle_decoded-Good :
      (cfg : Config) (w : World) (decode : Bytes → Option State) (frame : ℕ) (st : Option State)
      (c : Battle)
      → Idle b c
      → b.settled ≡ false
      → Good online b (settle_decoded decode cfg w frame st c)
  settle_decoded-Good cfg w decode frame none c i h = Idle-Good c i
  settle_decoded-Good cfg w decode frame (some st) c i h =
      let out : Outcome = record { winner = st.winner; frames = frame; scores = st.scores } in
      if_elim (Good online b) ((st.winner == "") && ltb frame cfg.max_frames) {x = c}
        {y = settle cfg w out c} (λ t. Idle-Good c i) λ f. ends-Good cfg w out c i h

  settle_snapshot-Good :
      (cfg : Config) (w : World) (decode : Bytes → Option State) (r : FrameResult)
      (s : Option SessionSnapshot) (c : Battle)
      → Idle b c
      → Good online b (settle_snapshot decode cfg w r s c)
  unfolding check_settle
  settle_snapshot-Good cfg w decode r none c i = Idle-Good c i
  settle_snapshot-Good cfg w decode r (some s) c i =
      if_elim (Good online b) c.settled {x = c} {y = check_settle decode cfg w r s c}
        (λ t. Idle-Good c i)
        λ f. settle_decoded-Good cfg w decode r.frame (decode s.state) c i (sym i.0.1 ∙ f)

  frame_done-Good :
      (cfg : Config) (w : World) (decode : Bytes → Option State) (r : FrameResult)
      → Good online b (on_frame_result decode cfg w r b)
  unfolding on_frame_result
  frame_done-Good cfg w decode r =
      let told =
        tell (publish_frames (sorted_keys b.players) (frame_message decode cfg w r))
          (record b { last_frame = r.frame }) in
      settle_snapshot-Good cfg w decode r r.snapshot told
        (Quiet-Idle b told (refl, refl, refl, (λ k. refl), λ x. refl))

enter-Idle : (b : Battle) → Idle b (enter_migration_window b)
unfolding enter_migration_window
enter-Idle b = hold_offline_timers-Idle (record b { migration = true })

exit-Idle : (cfg : Config) (b : Battle) → Idle b (exit_migration_window cfg b)
unfolding exit_migration_window
exit-Idle cfg b =
    let out : Battle = record b { migration = false } in
    let armed = rearm_offline_timers cfg out in
    let i : Idle b armed = rearm_offline_timers-Idle cfg out in
    if_elim (Idle b) armed.settled {x = armed} {y = tell resume_session armed} (λ t. i) λ f. i

exported-Idle :
    (cfg : Config) (st : Option MigrationState) (b c : Battle)
    → Idle b c
    → Idle b (exported cfg st c).0
exported-Idle cfg none b c i = Idle-trans b c (exit_migration_window cfg c) i (exit-Idle cfg c)
exported-Idle cfg (some st) b c i = i

prepares-Idle :
    (cfg : Config) (session : Option ReconnectResponse) (epoch : ℕ) (node id : String) (b : Battle)
    → Idle b (on_prepare_migration cfg session epoch node id b).0
unfolding on_prepare_migration
prepares-Idle cfg session epoch node id b =
    let inside = enter_migration_window b in
    let out = exported cfg (export_state session epoch node inside) inside in
    if_elim (λ (r : Battle × Option MigrationState). Idle b r.0) (names_other id b) {x = (b, none)}
      {y = out} (λ t. Quiet-Idle b b (still b))
      λ f. exported-Idle cfg (export_state session epoch node inside) b inside (enter-Idle b)

resumes-Idle : (cfg : Config) (id : String) (b : Battle) → Idle b (on_resume_migration cfg id b).0
unfolding on_resume_migration
resumes-Idle cfg id b =
    if_elim (λ (r : Battle × Bool). Idle b r.0) (names_other id b) {x = (b, false)}
      {y = (exit_migration_window cfg b, true)} (λ t. Quiet-Idle b b (still b)) λ f. exit-Idle cfg b

module _ (ports : Ports) (cfg : Config) where
  pub handle-Good :
      (w : World) (m : Message) (b : Battle) → IsNamed b → Good w.online b (handle ports cfg w m b)
  unfolding handle
  handle-Good w (creates id ps) b n = create-Good w.online b n id ps
  handle-Good w (admits id ps) b n = admits-Good w.online b n ports.encode ports.crc32 cfg w id ps
  handle-Good w (joins session version sender) b n =
      joins-Good w.online b n session cfg w version sender
  handle-Good w (sends_input sender frame payload) b n =
      sends_input-Good w.online b n w sender frame payload
  handle-Good w (asks_keyframe sender seq) b n = asks_keyframe-Good w.online b n sender seq
  handle-Good w (goes_online p) b n =
      (on_player_online-Change w.online cfg w p b, on_player_online-IsNamed p b n)
  handle-Good w (goes_offline p) b n =
      (on_player_offline-Change w.online cfg w p b, on_player_offline-IsNamed cfg w p b n)
  handle-Good w (times_out p) b n =
      (on_offline_timeout-Change w.online cfg w p b n, on_offline_timeout-IsNamed cfg w p b n)
  handle-Good w (fires k) b n =
      Idle-Good w.online b n (handle ports cfg w (fires k) b)
        ((refl, refl, (λ k. refl), λ x. refl), λ q. refl)
  handle-Good w opens b n =
      Idle-Good w.online b n (start_battle b) (Quiet-Idle b (start_battle b) (start_battle-Quiet b))
  handle-Good w (frame_done r) b n = frame_done-Good w.online b n cfg w ports.decode r
  handle-Good w (prepares session epoch node id) b n =
      Idle-Good w.online b n (on_prepare_migration cfg session epoch node id b).0
        (prepares-Idle cfg session epoch node id b)
  handle-Good w (resumes id) b n =
      Idle-Good w.online b n (on_resume_migration cfg id b).0 (resumes-Idle cfg id b)

-- ===== src/Battle/Timers/Window.antt =====
-- No timer runs for a player who is not away, and none inside the migration window, over every run
-- of the messages of services/battle/internal/actor.
use atlas_game_layout.Common.{
  ℕ, String, Bool, true, false, ◌&&◌, List, [], ◌∷◌, Option, none, some, ◌≡◌, refl, arith,
  lookup-delete, ltb, Bool-cases, Option-cases, inl, inr, lookup, ◌==◌, nat_key, string_key,
  if_elim, Bytes,
}
use atlas_game_layout.Simulator.{State}
use atlas_game_layout.Battle.{
  Battle, Config, World, offline_timeout, has, keys, tell, start_battle, Outcome, settle,
  resume_session, publish_frames, sorted_keys, join_session,
}
use atlas_game_layout.Battle.Offline.{hold, hold_offline_timers, rearm_offline_timers}
use atlas_game_layout.Battle.Tickets.{create, enlist, merged_roster, admit_elim}
use atlas_game_layout.Battle.Frames.{
  FrameResult, SessionSnapshot, on_frame_result, check_settle, settle_snapshot, settle_decoded,
  frame_message, send_frame_input, request_frame_keyframe, sender_player,
}
use atlas_game_layout.Battle.Sync.{ReconnectResponse, join_battle}
use atlas_game_layout.Battle.Migrate.{
  MigrationState, names_other, exported, on_prepare_migration, on_resume_migration,
  enter_migration_window, exit_migration_window, export_state,
}
use atlas_game_layout.Battle.Messages.{
  Message, creates, admits, joins, sends_input, asks_keyframe, goes_online, goes_offline, times_out,
  fires, opens, frame_done, prepares, resumes, Ports, handle, run,
}
use atlas_game_layout.Battle.Timers.{IsTimed}
use atlas_game_layout.Battle.Timers.Marks.{Shrinks, Shrinks-IsTimed, held-IsTimed, rearm-IsTimed}
use atlas_game_layout.Battle.Timers.Runs.{
  still, settle-Shrinks, start_battle-Shrinks, begin_seating-IsTimed, on_player_online-IsTimed,
  on_player_offline-IsTimed, on_offline_timeout-IsTimed,
}

sends_input-Shrinks :
    (w : World) (sender : Option String) (frame : ℕ) (payload : Bytes) (b : Battle)
    → Shrinks b (send_frame_input w sender frame payload b).0
unfolding send_frame_input
sends_input-Shrinks w sender frame payload b = elim (Option-cases (sender_player sender)) [
  | inl e ↦ rw (e, send_frame_input) (still b)
  | inr p ↦
      rw (p.1, send_frame_input)
        (elim (Bool-cases (has p.0 b.players)) [
          | inl t ↦ rw (t) (still b)
          | inr f ↦ rw (f) (still b)
        ])
]

asks_keyframe-Shrinks :
    (sender : Option String) (seq : ℕ) (b : Battle)
    → Shrinks b (request_frame_keyframe sender seq b).0
unfolding request_frame_keyframe
asks_keyframe-Shrinks sender seq b = elim (Option-cases (sender_player sender)) [
  | inl e ↦ rw (e, request_frame_keyframe) (still b)
  | inr p ↦
      rw (p.1, request_frame_keyframe)
        (elim (Bool-cases (has p.0 b.players)) [
          | inl t ↦ rw (t) (still b)
          | inr f ↦ rw (f) (still b)
        ])
]

joins-Shrinks :
    (session : ℕ → Option ReconnectResponse) (cfg : Config) (w : World) (version : ℕ)
    (sender : Option String) (b : Battle)
    → Shrinks b (join_battle session cfg w version sender b).0
unfolding join_battle
joins-Shrinks session cfg w version sender b = elim (Option-cases (sender_player sender)) [
  | inl e ↦ rw (e, join_battle) (still b)
  | inr p ↦
      rw (p.1, join_battle)
        (elim (Bool-cases (has p.0 b.players)) [
          | inl t ↦ rw (t) (elim (Bool-cases (w.delivered (join_session p.0))) [
            | inl t ↦ rw (t) (still b)
            | inr f ↦ rw (f) (still b)
          ])
          | inr f ↦ rw (f) (still b)
        ])
]

settle_decoded-Shrinks :
    (decode : Bytes → Option State) (cfg : Config) (w : World) (frame : ℕ) (st : Option State)
    (b : Battle)
    → Shrinks b (settle_decoded decode cfg w frame st b)
settle_decoded-Shrinks decode cfg w frame none b = still b
settle_decoded-Shrinks decode cfg w frame (some st) b =
    let out : Outcome = record { winner = st.winner; frames = frame; scores = st.scores } in
    if_elim (Shrinks b) ((st.winner == "") && ltb frame cfg.max_frames) {x = b}
      {y = settle cfg w out b} (λ t. still b) λ f. settle-Shrinks cfg w out b

settle_snapshot-Shrinks :
    (decode : Bytes → Option State) (cfg : Config) (w : World) (r : FrameResult)
    (s : Option SessionSnapshot) (b : Battle)
    → Shrinks b (settle_snapshot decode cfg w r s b)
unfolding check_settle
settle_snapshot-Shrinks decode cfg w r none b = still b
settle_snapshot-Shrinks decode cfg w r (some s) b =
    if_elim (Shrinks b) b.settled {x = b} {y = check_settle decode cfg w r s b} (λ t. still b)
      λ f. settle_decoded-Shrinks decode cfg w r.frame (decode s.state) b

frame_done-Shrinks :
    (decode : Bytes → Option State) (cfg : Config) (w : World) (r : FrameResult) (b : Battle)
    → Shrinks b (on_frame_result decode cfg w r b)
unfolding on_frame_result
frame_done-Shrinks decode cfg w r b =
    let told =
      tell (publish_frames (sorted_keys b.players) (frame_message decode cfg w r))
        (record b { last_frame = r.frame }) in
    settle_snapshot-Shrinks decode cfg w r r.snapshot told

enter-IsTimed : (b : Battle) → IsTimed b → IsTimed (enter_migration_window b)
unfolding enter_migration_window hold_offline_timers
enter-IsTimed b i =
    let inside : Battle = record b {
      migration = true;
      offline = (hold b.offline b.timers).0;
      timers = (hold b.offline b.timers).1;
    } in
    Shrinks-IsTimed inside (enter_migration_window b) (still inside) (held-IsTimed b i)

-- Leaving the window gives every mark a new timer, whatever the marks were.
exit-IsTimed : (cfg : Config) (b : Battle) → IsTimed b → IsTimed (exit_migration_window cfg b)
unfolding exit_migration_window rearm_offline_timers
exit-IsTimed cfg b i =
    let out : Battle = record b { migration = false } in
    let o : IsTimed out = record {
      owned = i.owned;
      fresh = i.fresh;
      held = λ m p n h. absurd (ground (arith, m));
    } in
    let armed = rearm_offline_timers cfg out in
    let a : IsTimed armed = rearm-IsTimed cfg (keys b.offline) out refl o in
    if_elim IsTimed armed.settled {x = armed} {y = tell resume_session armed} (λ t. a)
      λ f. Shrinks-IsTimed armed (tell resume_session armed) (still armed) a

exported-IsTimed :
    (cfg : Config) (st : Option MigrationState) (b : Battle)
    → IsTimed b
    → IsTimed (exported cfg st b).0
exported-IsTimed cfg none b i = exit-IsTimed cfg b i
exported-IsTimed cfg (some st) b i = i

prepares-IsTimed :
    (cfg : Config) (session : Option ReconnectResponse) (epoch : ℕ) (node id : String) (b : Battle)
    → IsTimed b
    → IsTimed (on_prepare_migration cfg session epoch node id b).0
unfolding on_prepare_migration
prepares-IsTimed cfg session epoch node id b i =
    let inside = enter_migration_window b in
    let st = export_state session epoch node inside in
    if_elim (λ (r : Battle × Option MigrationState). IsTimed r.0) (names_other id b) {x = (b, none)}
      {y = exported cfg st inside} (λ t. i) λ f. exported-IsTimed cfg st inside (enter-IsTimed b i)

resumes-IsTimed :
    (cfg : Config) (id : String) (b : Battle) → IsTimed b → IsTimed (on_resume_migration cfg id b).0
unfolding on_resume_migration
resumes-IsTimed cfg id b i =
    if_elim (λ (r : Battle × Bool). IsTimed r.0) (names_other id b) {x = (b, false)}
      {y = (exit_migration_window cfg b, true)} (λ t. i) λ f. exit-IsTimed cfg b i

module _ (ports : Ports) (cfg : Config) where
  handle-IsTimed :
      (w : World) (m : Message) (b : Battle) → IsTimed b → IsTimed (handle ports cfg w m b)
  unfolding handle create
  handle-IsTimed w (creates id ps) b i = Shrinks-IsTimed b (create id ps b) (still b) i
  handle-IsTimed w (admits id ps) b i =
      admit_elim ports.encode ports.crc32 cfg w IsTimed id ps b i λ a.
        let listed : Battle = record b {
          match_id = id;
          players = enlist (merged_roster b ps) b.players;
          admission = some a;
        } in
        begin_seating-IsTimed cfg w listed (Shrinks-IsTimed b listed (still b) i)
  handle-IsTimed w (joins session version sender) b i =
      Shrinks-IsTimed b (join_battle session cfg w version sender b).0
        (joins-Shrinks session cfg w version sender b) i
  handle-IsTimed w (sends_input sender frame payload) b i =
      Shrinks-IsTimed b (send_frame_input w sender frame payload b).0
        (sends_input-Shrinks w sender frame payload b) i
  handle-IsTimed w (asks_keyframe sender seq) b i =
      Shrinks-IsTimed b (request_frame_keyframe sender seq b).0 (asks_keyframe-Shrinks sender seq b)
        i
  handle-IsTimed w (goes_online p) b i = on_player_online-IsTimed p b i
  handle-IsTimed w (goes_offline p) b i = on_player_offline-IsTimed cfg w p b i
  handle-IsTimed w (times_out p) b i = on_offline_timeout-IsTimed cfg w p b i
  handle-IsTimed w (fires k) b i =
      Shrinks-IsTimed b (handle ports cfg w (fires k) b)
        (refl, refl, refl, λ n e h. ground (arith, lookup-delete k n b.timers, h)) i
  handle-IsTimed w opens b i = Shrinks-IsTimed b (start_battle b) (start_battle-Shrinks b) i
  handle-IsTimed w (frame_done r) b i =
      Shrinks-IsTimed b (on_frame_result ports.decode cfg w r b)
        (frame_done-Shrinks ports.decode cfg w r b) i
  handle-IsTimed w (prepares session epoch node id) b i =
      prepares-IsTimed cfg session epoch node id b i
  handle-IsTimed w (resumes id) b i = resumes-IsTimed cfg id b i

  run-IsTimed :
      (ms : List (World × Message)) (b : Battle) → IsTimed b → IsTimed (run ports cfg ms b)
  unfolding run
  run-IsTimed [] b i = i
  run-IsTimed ((w, m) ∷ ms) b i = run-IsTimed ms (handle ports cfg w m b) (handle-IsTimed w m b i)

  -- After any run of messages, from a battle whose pending timers are those that the marks name,
  -- whose handles are below the next one, and where no mark has a timer inside the migration window:
  -- the timer that is pending for a player is the one that his mark names, so that a player who is
  -- not marked as away has none, and inside the migration window nobody has one.
  pub run-timers :
      (ms : List (World × Message)) (b : Battle)
      → IsTimed b
      → (n : ℕ) (p : String) → lookup n (run ports cfg ms b).timers ≡ some (offline_timeout p)
      → (lookup p (run ports cfg ms b).offline ≡ some (some n))
        × ((run ports cfg ms b).migration ≡ false)
  run-timers ms b i n p h =
      let after = run-IsTimed ms b i in
      let o = after.owned n p h in
      (
        o,
        elim (Bool-cases (run ports cfg ms b).migration) [
          | inl t ↦ absurd (after.held t p n o)
          | inr f ↦ f
        ],
      )

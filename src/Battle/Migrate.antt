-- ===== src/Battle/Migrate.antt =====
-- The migration of a battle, battle_migrate.go, and the inbox of a node, migrate_inbox.go: the
-- window of the old owner, the state that travels and its recovery by the new one. The reply of the
-- lockstep session and the storage of the new session are parameters.
use atlas_game_layout.Common.{
  ℕ, String, Bool, true, false, not, ◌&&◌, List, [], ◌∷◌, ◌++◌, Option, none, some, Map, lookup,
  insert, delete, length, ltb, ◌==◌, nat_key, nat_order, string_key, sort, Bytes, if◌then◌else◌,
}
use atlas_game_layout.Frame as frame_messages
use atlas_game_layout.Simulator as simulator
use atlas_game_layout.Battle.{
  sorted_keys, Config, World, Battle, pause_session, resume_session, join_session, tell,
}
use atlas_game_layout.Battle.Frames.{SessionSnapshot, to_pb_input}
use atlas_game_layout.Battle.Tickets.{enlist}
use atlas_game_layout.Battle.Offline.{hold_offline_timers, rearm_offline_timers}
use atlas_game_layout.Battle.Sync.{ReconnectResponse}

-- `BattleMigrationState`.
pub record MigrationState : Type 0 where
  pub battle_id : String
  pub match_id : String
  pub players : List String
  pub last_frame : ℕ
  pub settled : Bool
  pub offline_marked : List String
  pub source_epoch : ℕ
  pub source_node : String
  pub snapshot_frame : ℕ
  pub snapshot_state : Bytes
  pub snapshot_hash : ℕ
  pub inputs : List frame_messages.Input

-- `enterMigrationWindow`.
unfoldable pub enter_migration_window : Battle → Battle
unfolding hold_offline_timers
enter_migration_window b =
    tell (pause_session "migration") (hold_offline_timers (record b { migration = true }))

-- `exitMigrationWindow`.
unfoldable pub exit_migration_window : Config → Battle → Battle
unfolding rearm_offline_timers
exit_migration_window cfg b =
    let armed = rearm_offline_timers cfg (record b { migration = false }) in
    if armed.settled then armed else tell resume_session armed

-- The nested loops of `exportState`.
unfoldable pub flat_inputs : List (List simulator.Input) → List frame_messages.Input
unfolding to_pb_input
flat_inputs [] = []
flat_inputs (is ∷ groups) = inputs_of is ++ flat_inputs groups
  where
    inputs_of : List simulator.Input → List frame_messages.Input
    inputs_of [] = []
    inputs_of (i ∷ is) = to_pb_input i ∷ inputs_of is

-- The state that `exportState` builds.
unfoldable pub exported_state : ReconnectResponse → ℕ → String → Battle → MigrationState
unfolding flat_inputs
exported_state r epoch node b = record {
  battle_id = b.battle_id;
  match_id = b.match_id;
  players = sorted_keys b.players;
  last_frame = b.last_frame;
  settled = b.settled;
  offline_marked = sorted_keys b.offline;
  source_epoch = epoch;
  source_node = node;
  snapshot_frame = elim r.snapshot [ none ↦ r.current_frame | some s ↦ s.frame ];
  snapshot_state = elim r.snapshot [ none ↦ [] | some s ↦ s.state ];
  snapshot_hash = elim r.snapshot [ none ↦ 0 | some s ↦ s.hash ];
  inputs = flat_inputs r.missed_inputs;
}

-- `exportState`: `none` where the session does not answer.
unfoldable pub export_state : Option ReconnectResponse → ℕ → String → Battle → Option MigrationState
unfolding exported_state
export_state none epoch node b = none
export_state (some r) epoch node b = some (exported_state r epoch node b)

-- Whether a request names another battle.
abbrev pub names_other : String → Battle → Bool
names_other id b = not (id == "") && not (id == b.battle_id)

-- The end of `onPrepareMigration`, inside the window: a failed export leaves it again.
abbrev pub exported : Config → Option MigrationState → Battle → Battle × Option MigrationState
exported cfg none inside = (exit_migration_window cfg inside, none)
exported cfg (some st) inside = (inside, some st)

-- `onPrepareMigration`.
unfoldable pub on_prepare_migration :
    Config
    → Option ReconnectResponse
    → ℕ
    → String
    → String
    → Battle
    → Battle × Option MigrationState
unfolding enter_migration_window export_state
on_prepare_migration cfg session epoch node id b =
    if names_other id b
    then (b, none)
    else let inside = enter_migration_window b in
      exported cfg (export_state session epoch node inside) inside

-- `onResumeMigration`, and whether the request was for this battle.
unfoldable pub on_resume_migration : Config → String → Battle → Battle × Bool
unfolding exit_migration_window
on_resume_migration cfg id b =
    if names_other id b then (b, false) else (exit_migration_window cfg b, true)

-- What a new session reads: its snapshot, and its inputs by frame in the order they were written.
pub record Storage (S : Type 0) : Type 0 where
  pub save_snapshot : SessionSnapshot → S → Option S
  pub append_inputs : ℕ → List simulator.Input → S → Option S

-- `byFrame`.
abbrev pub group_under : Option (List simulator.Input) → List simulator.Input
group_under none = []
group_under (some is) = is

unfoldable pub by_frame :
    List frame_messages.Input → Map ℕ (List simulator.Input) → Map ℕ (List simulator.Input)
by_frame [] m = m
by_frame (i ∷ is) m =
    let input : simulator.Input = record {
      frame = i.frame_id;
      player = i.player_id;
      payload = i.payload;
    } in
    by_frame is (insert i.frame_id (group_under (lookup i.frame_id m) ++ input ∷ []) m)

abbrev pub frame_keys : Map ℕ (List simulator.Input) → List ℕ
frame_keys [] = []
frame_keys ((n, is) ∷ m) = n ∷ frame_keys m

-- `sortedFrames`.
unfoldable pub sorted_frames : Map ℕ (List simulator.Input) → List ℕ
sorted_frames m = sort (frame_keys m)

module _ {S : Type 0} (storage : Storage S) where
  unfoldable pub append_frames : Map ℕ (List simulator.Input) → List ℕ → S → Option S
  append_frames m [] s = some s
  append_frames m (n ∷ ns) s = elim (storage.append_inputs n (group_under (lookup n m)) s) [
    | none ↦ none
    | some t ↦ append_frames m ns t
  ]

  -- The second half of `restoreSessionState`, after the snapshot was written.
  abbrev pub then_append : Map ℕ (List simulator.Input) → Option S → Option S
  then_append m none = none
  then_append m (some t) = append_frames m (sorted_frames m) t

  abbrev pub snapshot_of : MigrationState → SessionSnapshot
  snapshot_of st = record {
    frame = st.snapshot_frame;
    state = st.snapshot_state;
    hash = st.snapshot_hash;
  }

  -- `restoreSessionState`: `none` where a write fails.
  unfoldable pub restore_session_state : MigrationState → S → Option S
  unfolding by_frame sorted_frames append_frames
  restore_session_state st s = then_append (by_frame st.inputs []) (
      if (st.snapshot_frame == 0) && (length st.snapshot_state == 0)
      then some s
      else storage.save_snapshot (snapshot_of st) s)

  -- The loop of `applyStagedState` over the marks.
  unfoldable pub mark_each : List String → Map String (Option ℕ) → Map String (Option ℕ)
  mark_each [] m = m
  mark_each (p ∷ ps) m = mark_each ps (insert p none m)

  -- The end of `applyStagedState`, after the session's state was written.
  unfoldable pub take_over : MigrationState → Battle → Option S → Option (Battle × S)
  unfolding mark_each enlist
  take_over st b none = none
  take_over st b (some t) = some (
    record b {
      match_id = st.match_id;
      last_frame = st.last_frame;
      settled = st.settled;
      players = enlist st.players b.players;
      offline = mark_each st.offline_marked b.offline;
    },
    t,
  )

  -- `applyStagedState`: `none` where the state is refused or a write fails.
  unfoldable pub apply_staged_state : ℕ → MigrationState → Battle → S → Option (Battle × S)
  unfolding restore_session_state take_over
  apply_staged_state epoch st b s =
      if not (st.battle_id == b.battle_id)
      then none
      else if ltb epoch st.source_epoch
      then none
      else take_over st b (restore_session_state st s)

  -- The end of `restoreIfMigrated`.
  abbrev pub rearmed : Config → Option (Battle × S) → Option (Battle × S)
  rearmed cfg none = none
  rearmed cfg (some (b, t)) =
      let restored = record b { restored = true } in
      some (if restored.settled then restored else rearm_offline_timers cfg restored, t)

  -- `restoreIfMigrated`, of what `takeStagedState` gives; a failed question is left out.
  unfoldable pub restore_if_migrated :
      Config → ℕ → Option MigrationState → Battle → S → Option (Battle × S)
  unfolding apply_staged_state rearm_offline_timers
  restore_if_migrated cfg epoch none b s = some (b, s)
  restore_if_migrated cfg epoch (some st) b s = rearmed cfg (apply_staged_state epoch st b s)

-- The loop of `rejoinSession`: whether every player was joined.
unfoldable pub rejoin_each : World → List String → Battle → Battle × Bool
rejoin_each w [] b = (b, true)
rejoin_each w (p ∷ ps) b =
    let joined = tell (join_session p) b in
    let rest = rejoin_each w ps joined in
    if w.delivered (join_session p) then rest else (joined, false)

-- `rejoinSession`.
unfoldable pub rejoin_session : World → Battle → Battle × Bool
unfolding rejoin_each
rejoin_session w b = rejoin_each w (sorted_keys b.players) b

-- `MigrationInbox`: the states that wait for their new owner.
abbrev pub Inbox : Type 0
Inbox = Map String MigrationState

-- `onStage`, and whether the state was accepted.
unfoldable pub on_stage : MigrationState → Inbox → Inbox × Bool
on_stage st inbox =
    if st.battle_id == "" then (inbox, false) else (insert st.battle_id st inbox, true)

-- `onTake`.
unfoldable pub on_take : String → Inbox → Inbox × Option MigrationState
on_take id inbox = elim (lookup id inbox) [
  | none ↦ (inbox, none)
  | some st ↦ (delete id inbox, some st)
]

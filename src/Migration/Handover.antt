-- ===== src/Migration/Handover.antt =====
-- A migration with the actors on both sides: the battle of services/battle/internal/actor that is
-- asked for its state, the orchestrator of migrate.go, the inbox of the target's node and the new
-- instance that takes the state from there.
use atlas_game_layout.Common.{
  ℕ, ◌≤◌, String, true, ◌∷◌, Option, none, some, ◌≡◌, ◌≢◌, refl, ap, sym, ◌∙◌, subst, lookup-insert,
  string_key, nat_key, ==_refl, ==_ne, arith, Bool-cases, inl, inr, All,
}
use atlas_game_layout.Battle.{Battle, Config, new_battle}
use atlas_game_layout.Battle.Sync.{ReconnectResponse}
use atlas_game_layout.Battle.Offline.{hold_offline_timers}
use atlas_game_layout.Battle.Migrate.{
  MigrationState, Storage, exported_state, export_state, restore_if_migrated,
  enter_migration_window, on_prepare_migration, names_other, Inbox, on_stage, on_take,
}
use atlas_game_layout.Battle.Recovery.{IsWritable, IsRecovered, restore_if_migrated-export_state}
use atlas_game_layout.Battle.Roster.Steps.{hold-Same}
use atlas_game_layout.Migration.Moves.{
  activates, verifies, decode_reply, Ops, Pid, Answers, Raw, message, done, Outcome, migrate,
  decoded,
}
use atlas_game_layout.Migration.Flow.{drained_calls, IsMigration, migrate-IsMigration}

-- The reply that carries what the battle exports.
abbrev pub reply_of : Option MigrationState → Option Raw
reply_of none = none
reply_of (some st) = some (message st)

-- The battle in its window is the one before it.
enter-IsRecovered : (b : Battle) → IsRecovered b (enter_migration_window b)
unfolding enter_migration_window hold_offline_timers
enter-IsRecovered b = (refl, refl, refl, refl, (λ q. refl), λ q. hold-Same q b.offline b.timers)

IsRecovered-trans : (b c d : Battle) → IsRecovered b c → IsRecovered c d → IsRecovered b d
IsRecovered-trans b c d h k =
    (k.0 ∙ h.0, k.1 ∙ h.1, k.2 ∙ h.2, k.3 ∙ h.3, (λ q. k.4 q ∙ h.4 q), λ q. k.5 q ∙ h.5 q)

-- What is exported, where something is.
prepared_state :
    (cfg : Config) (r : ReconnectResponse) (old : ℕ) (node id : String) (b : Battle)
    (st : MigrationState) (a : Answers)
    → a.prepared ≡ reply_of (on_prepare_migration cfg (some r) old node id b).1
    → decoded a a.prepared ≡ some st
    → export_state (some r) old node (enter_migration_window b) ≡ some st
unfolding on_prepare_migration export_state decode_reply
prepared_state cfg r old node id b st a at got = elim (Bool-cases (names_other id b)) [
  | inl t ↦ ground (arith, t, at, got)
  | inr f ↦ ground (arith, f, at, got)
]

took_staged :
    (st : MigrationState) (id : String) (inbox : Inbox)
    → st.battle_id ≡ id
    → id ≢ ""
    → (on_take id (on_stage st inbox).0).1 ≡ some st
unfolding on_take on_stage
took_staged st id inbox same named =
    ground (arith, ==_ne id "" named, lookup-insert id id st inbox, ==_refl id)

-- The new instance in the epoch of the outcome, which takes its state from the inbox.
abbrev pub IsTaken :
    {S : Type 0} → Storage S → Config → Battle → Inbox → MigrationState → ℕ → S → Type 0
IsTaken {S} storage cfg b inbox st epoch s =
    (d : Battle) × (t : S) × (restore_if_migrated storage cfg epoch
        (on_take b.battle_id (on_stage st inbox).0).1 (new_battle b.battle_id) s
      ≡ some (d, t))
    × IsRecovered b d
    × (d.restored ≡ true)

module _ {S : Type 0} (storage : Storage S) (ok : IsWritable storage) where
  take_from_inbox :
      (cfg : Config) (r : ReconnectResponse) (old epoch : ℕ) (node : String) (b : Battle)
      (st : MigrationState) (inbox : Inbox) (s : S)
      → export_state (some r) old node (enter_migration_window b) ≡ some st
      → st.source_epoch ≤ epoch
      → b.battle_id ≢ ""
      → IsTaken storage cfg b inbox st epoch s
  unfolding export_state exported_state enter_migration_window hold_offline_timers
  take_from_inbox cfg r old epoch node b st inbox s exported le named =
      let inside = enter_migration_window b in
      let same : exported_state r old node inside ≡ st = ground (arith, exported) in
      let le' : old ≤ epoch = ground (arith, ap (λ (x : MigrationState). x.source_epoch) same) in
      let back = restore_if_migrated-export_state storage ok cfg r epoch old node inside s le' in
      let took : (on_take b.battle_id (on_stage st inbox).0).1
          ≡ export_state (some r) old node inside =
        took_staged st b.battle_id inbox (ap (λ (x : MigrationState). x.battle_id) (sym same)) named
        ∙ sym exported in
      (
        back.0,
        back.1,
        ap (λ x. restore_if_migrated storage cfg epoch x (new_battle b.battle_id) s) took ∙ back.2,
        IsRecovered-trans b inside back.0 (enter-IsRecovered b) back.3,
        back.4,
      )

  -- Where a migration succeeds that asked the battle for its state, the new instance that takes
  -- what was staged on the target, in the epoch of the outcome, has the battle's roster, marks,
  -- match, last frame and outcome, where the writes to the session's storage do not fail: what the
  -- orchestrator staged is what the battle exported, and the epoch is one that the new owner accepts.
  pub migrate-IsRecovered :
      (cfg : Config) (r : ReconnectResponse) (old : ℕ) (node id : String) (b : Battle)
      (inbox : Inbox) (s : S) (a : Answers) (pid : Pid) (o o' : Ops) (named : String)
      (out : Outcome)
      → a.prepared ≡ reply_of (on_prepare_migration cfg (some r) old node id b).1
      → b.battle_id ≢ ""
      → a.pid_of b.battle_id ≡ some pid
      → pid.kind ≡ "battle"
      → All (λ p. p.to_node ≢ "") a.plans
      → migrate a b.battle_id named o ≡ (o', done out)
      → (st : MigrationState) × (o'.calls
          ≡ verifies pid.key out.to_node out.epoch
            ∷ activates pid.key out.to_node
            ∷ drained_calls o pid.key out.from_node out.to_node st)
        × IsTaken storage cfg b inbox st out.epoch s
  migrate-IsRecovered cfg r old node id b inbox s a pid o o' named out asked b_named at battle plans
        went =
      let (st, carried, calls, gone, le, differ) =
        subst (IsMigration a o pid) went
          (migrate-IsMigration a pid o b.battle_id named at battle plans) in
      (
        st,
        calls,
        take_from_inbox cfg r old out.epoch node b st inbox s
            (prepared_state cfg r old node id b st a asked carried) le b_named,
      )

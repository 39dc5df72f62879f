-- ===== src/Tests/Migrations.antt =====
-- The battle of the other tests moves from one node to the less loaded of two others.
use atlas_game_layout.Common.{
  true, false, List, [], ◌∷◌, Option, none, some, ◌≡◌, refl, string_key, nat_key, str_iff, arith,
}
use atlas_game_layout.Tests.Battles.{config, started, storage, storage-IsWritable, answer}
use atlas_game_layout.Battle.{new_battle}
use atlas_game_layout.Battle.Migrate.{MigrationState, on_prepare_migration}
use atlas_game_layout.Migration.{
  choose, pre_stage, export, deliver, is_battle_pid, activate_pid_on, peek, quarantine_old_owner,
  pending_state, remember_staged, stage, verifies, activates, Node, select, Ops, Pid, Answers, done,
  failed, Outcome, new_ops, migrate, not_staged, prepares, stages, call, drain_pid_on, drains,
}
use atlas_game_layout.Migration.Least.{IsBest, select-IsBest}
use atlas_game_layout.Migration.Flow.{IsMigration, migrate-IsMigration, drained_calls}
use atlas_game_layout.Migration.Handover.{reply_of, IsTaken, migrate-IsRecovered}

abbrev others : List Node
others =
    record { id = "node3"; proc_count = 4 }
    ∷ record { id = "node2"; proc_count = 4 }
    ∷ record { id = "node1"; proc_count = 1 }
    ∷ []

select-IsBest_example : IsBest others "node1" (select others "node1")
select-IsBest_example = select-IsBest others "node1"

abbrev pid : Pid
pid = record { kind = "battle"; key = "battle:b1" }

abbrev state : Option MigrationState
state = (on_prepare_migration config (some answer) 2 "node1" "" started).1

abbrev answers : Answers
answers = record {
  pid_of = λ id. some pid;
  is_inbox = λ node. true;
  owner_nodes = some ("node1" ∷ []);
  has_chooser = true;
  nodes = some others;
  plans = [];
  prepared = reply_of state;
  unmarshal = λ b. none;
  told = λ node. true;
  drained = true;
  activated = some 3;
  verified = true;
}

migrate-IsMigration_example :
    IsMigration answers (new_ops "node1" true) pid (migrate answers "b1" "" (new_ops "node1" true))
migrate-IsMigration_example =
    migrate-IsMigration answers pid (new_ops "node1" true) "b1" "" refl refl tt

abbrev moved : Ops
moved = (migrate answers started.battle_id "" (new_ops "node1" true)).0

abbrev outcome : Outcome
outcome = record { from_node = "node1"; to_node = "node2"; epoch = 3 }

succeeds : migrate answers started.battle_id "" (new_ops "node1" true) ≡ (moved, done outcome)
unfolding migrate choose pre_stage export on_prepare_migration deliver drain_pid_on is_battle_pid
    activate_pid_on peek quarantine_old_owner pending_state remember_staged new_ops stage
succeeds = refl

migrate-IsRecovered_example :
    (st : MigrationState) × (moved.calls
      ≡ verifies "battle:b1" "node2" 3
        ∷ activates "battle:b1" "node2"
        ∷ drained_calls (new_ops "node1" true) "battle:b1" "node1" "node2" st)
    × IsTaken storage config started [] st 3 []
unfolding new_battle
migrate-IsRecovered_example =
    migrate-IsRecovered storage storage-IsWritable config answer 2 "node1" "" started [] [] answers
      pid (new_ops "node1" true) moved "" outcome refl (λ e. ground (arith, (str_iff "b1" "").1 e))
      refl refl tt succeeds

-- The target does not take the state: the old owner stays in its window, for it is not resumed.
abbrev lost : Answers
lost = record answers { told = λ node. false }

stays_in_window :
    (st : MigrationState) × (migrate lost "b1" "" (new_ops "node1" true) ≡ (
      call (stages "node2" st) (call (prepares "battle:b1") (new_ops "node1" true)),
      failed not_staged,
    ))
unfolding migrate choose pre_stage export on_prepare_migration deliver new_ops
stays_in_window = (_, refl)

-- Of a state that a failed activation left, the next drain asks for no newer one.
abbrev stuck : Ops
stuck = (migrate (record answers { activated = none }) "b1" "" (new_ops "node1" true)).0

drains_without_asking :
    (drain_pid_on answers pid "node2" stuck).0.calls ≡ drains "battle:b1" "node2" ∷ stuck.calls
unfolding migrate choose pre_stage export on_prepare_migration deliver drain_pid_on is_battle_pid
    activate_pid_on peek quarantine_old_owner pending_state remember_staged new_ops stage
drains_without_asking = refl

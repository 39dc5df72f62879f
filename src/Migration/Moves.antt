-- ===== src/Migration/Moves.antt =====
-- The decorator of the cluster's operations, services/battle/internal/migrate/migrate.go and
-- quarantine.go. What it calls, the cluster, the actor plane and the quarantine, is listed in
-- order, and their answers are arguments; so is the protobuf codec.
use atlas_game_layout.Common.{
  ℕ, String, Bool, true, false, not, List, [], ◌∷◌, Option, none, some, Map, lookup, insert, delete,
  ltb, ◌==◌, ◌&&◌, string_key, Bytes, if◌then◌else◌,
}
use atlas_game_layout.Battle.Migrate.{MigrationState}
use atlas_game_layout.Migration.Picker.{Node, Plan, choose}

-- What the source reads of a PID: its type, and its string.
pub record Pid : Type 0 where
  pub kind : String
  pub key : String

-- `staged`: the empty node where it is not staged yet.
pub record Staged : Type 0 where
  pub state : MigrationState
  pub staged_on : String

-- The calls that go out.
pub data Call : Type 0 where
  prepares : String → Call
  resumes : String → Call
  stages : String → MigrationState → Call
  drains : String → String → Call
  quarantines : String → Call
  activates : String → String → Call
  verifies : String → String → ℕ → Call

-- `Ops`, with the calls that it made, the last one first.
pub record Ops : Type 0 where
  pub node : String
  pub has_quarantiner : Bool
  pub pending : Map String Staged
  pub calls : List Call

-- `NewOps`, with `WithQuarantine` where there is one.
unfoldable pub new_ops : String → Bool → Ops
new_ops node has_quarantiner = record {
  node = node;
  has_quarantiner = has_quarantiner;
  pending = [];
  calls = [];
}

-- The reply of an Ask: a message, its bytes, or something else.
pub data Raw : Type 0 where
  message : MigrationState → Raw
  bytes : Bytes → Raw
  other : Raw

-- The answers; none, or false, for an error. `pid_of` is `NewPID` of the type of battles and
-- `is_inbox` whether a node's inbox has a PID.
pub record Answers : Type 0 where
  pub pid_of : String → Option Pid
  pub is_inbox : String → Bool
  pub owner_nodes : Option (List String)
  pub has_chooser : Bool
  pub nodes : Option (List Node)
  pub plans : List Plan
  pub prepared : Option Raw
  pub unmarshal : Bytes → Option MigrationState
  pub told : String → Bool
  pub drained : Bool
  pub activated : Option ℕ
  pub verified : Bool

pub data Failure : Type 0 where
  bad_pid : Failure
  lookup_failed : Failure
  no_owner : Failure
  no_target : Failure
  same_node : Failure
  bad_state : Failure
  not_staged : Failure
  not_drained : Failure
  not_activated : Failure
  stale_epoch : Failure
  not_verified : Failure

pub data Result (A : Type 0) : Type 0 where
  failed : Failure → Result A
  done : A → Result A

-- `Outcome`.
pub record Outcome : Type 0 where
  pub from_node : String
  pub to_node : String
  pub epoch : ℕ

abbrev pub call : Call → Ops → Ops
call c o = record o { calls = c ∷ o.calls }

-- `IsBattlePID`.
unfoldable pub is_battle_pid : Pid → Bool
is_battle_pid pid = pid.kind == "battle"

-- `remember` and `rememberStaged`.
unfoldable pub remember_staged : Pid → MigrationState → String → Ops → Ops
remember_staged pid st target o = record o {
  pending = insert pid.key (record { state = st; staged_on = target }) o.pending;
}

unfoldable pub remember : Pid → MigrationState → Ops → Ops
unfolding remember_staged
remember pid st o = remember_staged pid st "" o

-- `peek`.
unfoldable pub peek : Pid → Ops → Option Staged
peek pid o = lookup pid.key o.pending

-- `pendingState`.
unfoldable pub pending_state : Pid → Ops → Option MigrationState
unfolding peek
pending_state pid o = elim (peek pid o) [ none ↦ none | some s ↦ some s.state ]

-- `forget`.
unfoldable pub forget : Pid → Ops → Ops
forget pid o = record o { pending = delete pid.key o.pending }

-- `decodeReply`.
unfoldable pub decode_reply : (Bytes → Option MigrationState) → Raw → Option MigrationState
decode_reply unmarshal (message st) = some st
decode_reply unmarshal (bytes b) = unmarshal b
decode_reply unmarshal other = none

-- `export`.
abbrev pub decoded : Answers → Option Raw → Option MigrationState
decoded a none = none
decoded a (some raw) = decode_reply a.unmarshal raw

unfoldable pub export : Answers → Pid → Ops → Ops × Option MigrationState
unfolding decode_reply
export a pid o = (call (prepares pid.key) o, decoded a a.prepared)

-- `deliver`, and whether it did.
unfoldable pub deliver : Answers → String → MigrationState → Ops → Ops × Bool
deliver a target st o =
    if a.is_inbox target then (call (stages target st) o, a.told target) else (o, false)

-- `stage`.
unfoldable pub stage : Answers → String → Staged → Ops → Ops × Bool
unfolding deliver
stage a target s o = if s.staged_on == target then (o, true) else deliver a target s.state o

-- `preStage`.
abbrev pub staged_for : Pid → String → MigrationState → Ops × Bool → Ops × Result Unit
staged_for pid target st (o, true) = (remember_staged pid st target o, done tt)
staged_for pid target st (o, false) = (o, failed not_staged)

abbrev pub pre_staged : Answers → Pid → String → Ops × Option MigrationState → Ops × Result Unit
pre_staged a pid target (o, none) = (o, failed bad_state)
pre_staged a pid target (o, some st) = staged_for pid target st (deliver a target st o)

unfoldable pub pre_stage : Answers → Pid → String → Ops → Ops × Result Unit
pre_stage a pid target o = pre_staged a pid target (export a pid o)

-- `quarantineOldOwner`.
unfoldable pub quarantine_old_owner : Pid → String → Ops → Ops
quarantine_old_owner pid from o =
    if not o.has_quarantiner
    then o
    else if not (from == "") && not (from == o.node)
    then o
    else call (quarantines pid.key) o

-- `DrainPIDOn`: the state that is there, or is asked for; then the drain.
abbrev pub remembered : Pid → Ops × Option MigrationState → Ops × Option MigrationState
remembered pid (o, none) = (o, none)
remembered pid (o, some st) = (remember pid st o, some st)

abbrev pub to_carry : Answers → Pid → Ops → Option MigrationState → Ops × Option MigrationState
to_carry a pid o (some st) = (o, some st)
to_carry a pid o none = remembered pid (export a pid o)

-- `resumeOldOwner`, where a state was exported.
abbrev pub resume_if : Option MigrationState → Pid → Ops → Ops
resume_if none pid o = o
resume_if (some st) pid o = call (resumes pid.key) o

abbrev pub drained_with : Answers → Pid → String → Ops × Option MigrationState → Ops × Result Unit
drained_with a pid from (o, st) =
    let o' = call (drains pid.key from) o in
    if a.drained
    then (quarantine_old_owner pid from o', done tt)
    else (resume_if st pid (forget pid o'), failed not_drained)

abbrev pub inner_drain : Answers → Pid → String → Ops → Ops × Result Unit
inner_drain a pid from o =
    (call (drains pid.key from) o, if a.drained then done tt else failed not_drained)

unfoldable pub drain_pid_on : Answers → Pid → String → Ops → Ops × Result Unit
drain_pid_on a pid from o =
    if is_battle_pid pid
    then drained_with a pid from (to_carry a pid o (pending_state pid o))
    else inner_drain a pid from o

-- `DrainPID`.
unfoldable pub drain_pid : Answers → Pid → Ops → Ops × Result Unit
drain_pid a pid o = drain_pid_on a pid o.node o

-- `ActivatePIDOn`: the epoch of the new owner.
abbrev pub activated_as : Option ℕ → Result ℕ
activated_as none = failed not_activated
activated_as (some e) = done e

abbrev pub checked : Pid → MigrationState → Ops → Option ℕ → Ops × Result ℕ
checked pid st o none = (o, failed not_activated)
checked pid st o (some e) =
    (forget pid o, if ltb e st.source_epoch then failed stale_epoch else done e)

abbrev pub activated_with : Answers → Pid → String → MigrationState → Ops × Bool → Ops × Result ℕ
activated_with a pid prefer st (o, false) = (o, failed not_staged)
activated_with a pid prefer st (o, true) =
    checked pid st (call (activates pid.key prefer) o) a.activated

abbrev pub activated_from : Answers → Pid → String → Ops → Option Staged → Ops × Result ℕ
activated_from a pid prefer o none = (call (activates pid.key prefer) o, activated_as a.activated)
activated_from a pid prefer o (some s) =
    activated_with a pid prefer s.state (stage a (if prefer == "" then o.node else prefer) s o)

unfoldable pub activate_pid_on : Answers → Pid → String → Ops → Ops × Result ℕ
activate_pid_on a pid prefer o = activated_from a pid prefer o (peek pid o)

-- `ActivatePID`.
unfoldable pub activate_pid : Answers → Pid → Ops → Ops × Result ℕ
activate_pid a pid o = activate_pid_on a pid "" o

-- `Migrate`, from its end.
abbrev pub verified_as : Answers → Pid → String → String → Ops × Result ℕ → Ops × Result Outcome
verified_as a pid from target (o, failed f) = (o, failed f)
verified_as a pid from target (o, done e) = (
  call (verifies pid.key target e) o,
  if a.verified
      then done (record { from_node = from; to_node = target; epoch = e })
      else failed not_verified,
)

abbrev pub then_activate :
    Answers → Pid → String → String → Ops × Result Unit → Ops × Result Outcome
then_activate a pid from target (o, failed f) = (o, failed f)
then_activate a pid from target (o, done u) =
    verified_as a pid from target (activate_pid_on a pid target o)

abbrev pub then_drain : Answers → Pid → String → String → Ops × Result Unit → Ops × Result Outcome
then_drain a pid from target (o, failed f) = (o, failed f)
then_drain a pid from target (o, done u) =
    then_activate a pid from target (drain_pid_on a pid from o)

abbrev pub to_target : Answers → Pid → String → Option String → Ops → Ops × Result Outcome
to_target a pid from none o = (o, failed no_target)
to_target a pid from (some target) o =
    if target == from
    then (o, failed same_node)
    else then_drain a pid from target (pre_stage a pid target o)

-- The target that was named, or the one that is chosen.
abbrev pub target_for : Answers → Pid → String → String → Option String
target_for a pid from named =
    if named == "" then choose a.has_chooser a.nodes a.plans pid.key from else some named

abbrev pub from_owner : Answers → Pid → String → Option (List String) → Ops → Ops × Result Outcome
from_owner a pid named none o = (o, failed lookup_failed)
from_owner a pid named (some []) o = (o, failed lookup_failed)
from_owner a pid named (some (from ∷ rest)) o =
    if from == ""
    then (o, failed no_owner)
    else to_target a pid from (target_for a pid from named) o

abbrev pub of_pid : Answers → String → Option Pid → Ops → Ops × Result Outcome
of_pid a named none o = (o, failed bad_pid)
of_pid a named (some pid) o = from_owner a pid named a.owner_nodes o

unfoldable pub migrate : Answers → String → String → Ops → Ops × Result Outcome
migrate a battle_id named o = of_pid a named (a.pid_of battle_id) o

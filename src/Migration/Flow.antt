-- ===== src/Migration/Flow.antt =====
-- The calls of a migration, `Migrate` of services/battle/internal/migrate/migrate.go.
use atlas_game_layout.Common.{
  All, ==_ne, subst, ◌⊎◌, ℕ, ◌≤◌, String, Bool, true, false, List, [], ◌∷◌, Option, none, some, ◌≡◌,
  ◌≢◌, refl, ap, sym, lookup, lookup-insert, lookup-delete, ltb, string_key, nat_key, str_iff, ◌==◌,
  ==_refl, if◌then◌else◌, if_elim, arith, Bool-cases, Option-cases, inl, inr,
}
use atlas_game_layout.Battle.Migrate.{MigrationState}
use atlas_game_layout.Migration.Picker.{Node, Plan, select, choose_target, choose}
use atlas_game_layout.Migration.Least.{IsBest, select-IsBest}
use atlas_game_layout.Migration.Moves.{
  Ops, Pid, Call, prepares, resumes, stages, drains, quarantines, activates, verifies, Answers,
  no_owner, same_node, bad_state, not_staged, not_drained, not_activated, stale_epoch, not_verified,
  Result, failed, done, Outcome, is_battle_pid, pending_state, peek, remember_staged, forget,
  export, deliver, stage, staged_for, pre_staged, pre_stage, quarantine_old_owner, drained_with,
  drain_pid_on, checked, activate_pid_on, verified_as, then_activate, then_drain, to_target,
  target_for, from_owner, migrate, decoded, call,
}

-- The calls of each part of a migration, the last one first.
abbrev pub staged_calls : String → String → MigrationState → List Call → List Call
staged_calls k target st before = stages target st ∷ prepares k ∷ before

abbrev pub is_quarantined : Ops → String → Bool
is_quarantined o from =
    if o.has_quarantiner then (if from == "" then true else from == o.node) else false

abbrev pub drained_calls : Ops → String → String → String → MigrationState → List Call
drained_calls o k from target st =
    let moved = drains k from ∷ staged_calls k target st o.calls in
    if is_quarantined o from then quarantines k ∷ moved else moved

-- What `Migrate` leaves, by its result: the calls that it made, in order, and the state that is
-- kept for another try.
abbrev pub IsMigration : Answers → Ops → Pid → Ops × Result Outcome → Type 0
IsMigration a o pid (o', done out) =
    (st : MigrationState) × (decoded a a.prepared ≡ some st)
    × (o'.calls
        ≡ verifies pid.key out.to_node out.epoch
          ∷ activates pid.key out.to_node
          ∷ drained_calls o pid.key out.from_node out.to_node st)
    × (lookup pid.key o'.pending ≡ none)
    × (st.source_epoch ≤ out.epoch)
    × (out.to_node ≢ out.from_node)
IsMigration a o pid (o', failed bad_state) = o' ≡ call (prepares pid.key) o
IsMigration a o pid (o', failed not_staged) =
    (o' ≡ call (prepares pid.key) o)
    ⊎ ((target : String) × (st : MigrationState) × (o'
          ≡ call (stages target st) (call (prepares pid.key) o)))
IsMigration a o pid (o', failed not_drained) =
    (from : String) × (target : String) × (st : MigrationState) × (o'.calls
      ≡ resumes pid.key ∷ drains pid.key from ∷ staged_calls pid.key target st o.calls)
    × (lookup pid.key o'.pending ≡ none)
IsMigration a o pid (o', failed not_activated) =
    (from : String) × (target : String) × (st : MigrationState) × (o'.calls
      ≡ activates pid.key target ∷ drained_calls o pid.key from target st)
    × (lookup pid.key o'.pending ≡ some (record { state = st; staged_on = target }))
IsMigration a o pid (o', failed stale_epoch) =
    (from : String) × (target : String) × (st : MigrationState) × (o'.calls
      ≡ activates pid.key target ∷ drained_calls o pid.key from target st)
    × (lookup pid.key o'.pending ≡ none)
IsMigration a o pid (o', failed not_verified) =
    (from : String) × (target : String) × (st : MigrationState) × (e : ℕ) × (o'.calls
      ≡ verifies pid.key target e
        ∷ activates pid.key target
        ∷ drained_calls o pid.key from target st)
    × (lookup pid.key o'.pending ≡ none)
IsMigration a o pid (o', failed f) = o' ≡ o

module _ (a : Answers) (pid : Pid) (o : Ops) (from target : String) (st : MigrationState)
    (carried : decoded a a.prepared ≡ some st) where
  -- After the drain.
  abbrev IsDrained : Ops → Type 0
  IsDrained o' =
      (o'.calls ≡ drained_calls o pid.key from target st)
      × (lookup pid.key o'.pending ≡ some (record { state = st; staged_on = target }))

  checked-IsMigration :
      (o' : Ops) (e : Option ℕ)
      → target ≢ from
      → IsDrained o'
      → IsMigration a o pid
          (verified_as a pid from target (checked pid st (call (activates pid.key target) o') e))
  unfolding forget
  checked-IsMigration o' none differ h =
      (from, target, st, ap (λ x. activates pid.key target ∷ x) h.0, h.1)
  checked-IsMigration o' (some e) differ h =
      let o1 = call (activates pid.key target) o' in
      let gone : lookup pid.key (forget pid o1).pending ≡ none =
        ground (arith, lookup-delete pid.key pid.key o'.pending, ==_refl pid.key) in
      let calls = ap (λ x. activates pid.key target ∷ x) h.0 in
      if_elim
        (λ (x : Result ℕ). IsMigration a o pid (verified_as a pid from target (forget pid o1, x)))
        (ltb e st.source_epoch) {x = failed stale_epoch} {y = done e}
        (λ old. (from, target, st, calls, gone))
        (λ young.
          if_elim
            (λ (x : Result Outcome).
              IsMigration a o pid (call (verifies pid.key target e) (forget pid o1), x))
            a.verified {x = done (record { from_node = from; to_node = target; epoch = e })}
            {y = failed not_verified}
            (λ good. (
              st,
              carried,
              ap (λ x. verifies pid.key target e ∷ x) calls,
              gone,
              ground (arith, young),
              differ,
            ))
            (λ bad. (from, target, st, e, ap (λ x. verifies pid.key target e ∷ x) calls, gone)))

  -- It is staged there already.
  stage_again :
      (o' : Ops)
      → target ≢ ""
      → stage a
          (if target == "" then o'.node else target)
          (record { state = st; staged_on = target })
          o'
        ≡ (o', true)
  unfolding stage
  stage_again o' named = ground (arith, ==_ne target "" named, ==_refl target)

  activate-IsMigration :
      (o' : Ops)
      → target ≢ ""
      → target ≢ from
      → IsDrained o'
      → IsMigration a o pid (verified_as a pid from target (activate_pid_on a pid target o'))
  unfolding activate_pid_on peek
  activate-IsMigration o' named differ h =
      rw (h.1, stage_again o' named) (checked-IsMigration o' a.activated differ h)

  -- Before the drain.
  abbrev IsStaged : Ops → Type 0
  IsStaged o' =
      (o'.calls ≡ staged_calls pid.key target st o.calls)
      × (lookup pid.key o'.pending ≡ some (record { state = st; staged_on = target }))
      × (o'.node ≡ o.node)
      × (o'.has_quarantiner ≡ o.has_quarantiner)

  quarantine-IsDrained :
      (o' : Ops)
      → IsStaged o'
      → IsDrained (quarantine_old_owner pid from (call (drains pid.key from) o'))
  unfolding quarantine_old_owner
  quarantine-IsDrained o' h = ground (arith, h)

  -- The state that was staged is the one that is carried.
  drain_staged :
      (o' : Ops)
      → pid.kind ≡ "battle"
      → lookup pid.key o'.pending ≡ some (record { state = st; staged_on = target })
      → drain_pid_on a pid from o' ≡ drained_with a pid from (o', some st)
  unfolding drain_pid_on is_battle_pid pending_state peek
  drain_staged o' battle at = ground (arith, at, str_iff pid.kind "battle")

  drain-IsMigration :
      (o' : Ops)
      → pid.kind ≡ "battle"
      → target ≢ ""
      → target ≢ from
      → IsStaged o'
      → IsMigration a o pid (then_activate a pid from target (drain_pid_on a pid from o'))
  unfolding forget
  drain-IsMigration o' battle named differ h =
      let o1 = call (drains pid.key from) o' in
      subst (λ (q : Ops × Result Unit). IsMigration a o pid (then_activate a pid from target q))
        (sym (drain_staged o' battle h.1))
        (if_elim
          (λ (q : Ops × Result Unit). IsMigration a o pid (then_activate a pid from target q))
          a.drained {x = (quarantine_old_owner pid from o1, done tt)}
          {y = (call (resumes pid.key) (forget pid o1), failed not_drained)}
          (λ ok.
            activate-IsMigration (quarantine_old_owner pid from o1) named differ
              (quarantine-IsDrained o' h))
          (λ bad. (
            from,
            target,
            st,
            ap (λ x. resumes pid.key ∷ drains pid.key from ∷ x) h.0,
            ground (arith, lookup-delete pid.key pid.key o'.pending, ==_refl pid.key),
          )))

best_named :
    (nodes : List Node) (from : String) (o : Option String) → IsBest nodes from o → o ≢ some ""
best_named nodes from none best e = ground arith
best_named nodes from (some id) best e = ground (arith, best.2, best.4)

chosen_named :
    (ps : List Plan) (nodes : List Node) (pid from : String)
    → All (λ p. p.to_node ≢ "") ps
    → choose_target ps nodes pid from ≢ some ""
unfolding choose_target
chosen_named [] nodes pid from h e =
    best_named nodes from (select nodes from) (select-IsBest nodes from) e
chosen_named (p ∷ ps) nodes pid from h e =
    ground (arith, e, h.0, chosen_named ps nodes pid from h.1)

target_for-named :
    (a : Answers) (pid : Pid) (from named : String)
    → All (λ p. p.to_node ≢ "") a.plans
    → target_for a pid from named ≢ some ""
unfolding choose
target_for-named a pid from named h e =
    let chosen : (ns : List Node) → choose_target a.plans ns pid.key from ≢ some "" =
      λ ns. chosen_named a.plans ns pid.key from h in
    elim (Option-cases a.nodes) [
      | inl none_there ↦ ground (arith, e, str_iff named "")
      | inr (ns, there) ↦ ground (arith, e, str_iff named "", chosen ns)
    ]

module _ (a : Answers) (pid : Pid) (o : Ops) where
  stage-IsMigration :
      (from target : String) (prepared : Option MigrationState)
      → decoded a a.prepared ≡ prepared
      → pid.kind ≡ "battle"
      → target ≢ ""
      → target ≢ from
      → IsMigration a o pid (
          then_drain a pid from target
            (pre_staged a pid target (call (prepares pid.key) o, prepared)))
  unfolding deliver remember_staged
  stage-IsMigration from target none at battle named differ = refl
  stage-IsMigration from target (some st) at battle named differ =
      let o1 = call (prepares pid.key) o in
      let o2 = call (stages target st) o1 in
      if_elim
        (λ (q : Ops × Bool).
          IsMigration a o pid (then_drain a pid from target (staged_for pid target st q)))
        (a.is_inbox target) {x = (o2, a.told target)} {y = (o1, false)}
        (λ inbox. elim (Bool-cases (a.told target)) [
          | inl told ↦ rw (told) (
              drain-IsMigration a pid o from target st at (remember_staged pid st target o2) battle
                named differ
                (
                  refl,
                  ground (
                    arith,
                    lookup-insert pid.key pid.key (record { state = st; staged_on = target })
                        o.pending,
                    ==_refl pid.key,
                  ),
                  refl,
                  refl,
                ))
          | inr lost ↦ rw (lost) (inr (target, st, refl))
        ])
        (λ none_there. inl refl)

  target-IsMigration :
      (from : String) (target : Option String)
      → pid.kind ≡ "battle"
      → target ≢ some ""
      → IsMigration a o pid (to_target a pid from target o)
  unfolding pre_stage export
  target-IsMigration from none battle named = refl
  target-IsMigration from (some target) battle named =
      if_elim (IsMigration a o pid) (target == from) {x = (o, failed same_node)}
        {y = then_drain a pid from target (pre_stage a pid target o)} (λ same. refl)
        (λ other.
          stage-IsMigration from target (decoded a a.prepared) refl battle (λ e. named (ap some e))
            (λ e. ground (arith, other, str_iff target from)))

  owner-IsMigration :
      (named : String) (owners : Option (List String))
      → pid.kind ≡ "battle"
      → ((from : String) → target_for a pid from named ≢ some "")
      → IsMigration a o pid (from_owner a pid named owners o)
  owner-IsMigration named none battle h = refl
  owner-IsMigration named (some []) battle h = refl
  owner-IsMigration named (some (from ∷ rest)) battle h =
      if_elim (IsMigration a o pid) (from == "") {x = (o, failed no_owner)}
        {y = to_target a pid from (target_for a pid from named) o} (λ empty. refl)
        (λ there. target-IsMigration from (target_for a pid from named) battle (h from))

  -- A migration of a battle, whatever the cluster answers, where the plans name their nodes: a
  -- success prepares the old owner, stages the state that it exported on the target, drains the old
  -- owner, quarantines it where this is its node, activates the target and verifies it, in this
  -- order and once each, and keeps nothing; the target is not the old owner, and the new epoch is not
  -- older than the state's. After a failed drain the old owner is resumed and nothing is kept; after
  -- a failed activation the state is kept for the next try; and where no state was exported or it
  -- was not staged, the drain is not tried and the old owner is not resumed.
  pub migrate-IsMigration :
      (battle_id named : String)
      → a.pid_of battle_id ≡ some pid
      → pid.kind ≡ "battle"
      → All (λ p. p.to_node ≢ "") a.plans
      → IsMigration a o pid (migrate a battle_id named o)
  unfolding migrate
  migrate-IsMigration battle_id named at battle plans =
      rw (at) (
        owner-IsMigration named a.owner_nodes battle
          λ from. target_for-named a pid from named plans)

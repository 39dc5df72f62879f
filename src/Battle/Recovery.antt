-- ===== src/Battle/Recovery.antt =====
-- A battle that moves to another node: what `exportState` writes and `restoreIfMigrated` reads,
-- services/battle/internal/actor/battle_migrate.go.
use atlas_game_layout.Common.{
  ℕ, nat_key, nat_order, length, ◌&&◌, ◌≤◌, String, true, false, List, [], ◌∷◌, Option, none, some,
  ◌≡◌, refl, ◌∙◌, ap, arith, Map, Bool-cases, Option-cases, inl, inr, lookup, ◌==◌, string_key,
  if◌then◌else◌, if_elim, member, member-sort, string_order, insert, ltb, ==_refl,
}
use atlas_game_layout.Common.Int.{pos, ltb_ℤ}
use atlas_game_layout.Battle.{Battle, Config, has, keys, sorted_keys, new_battle}
use atlas_game_layout.Battle.Frames.{SessionSnapshot}
use atlas_game_layout.Simulator as simulator
use atlas_game_layout.Battle.Tickets.{enlist}
use atlas_game_layout.Battle.Offline.{clear_offline, arm_offline, rearm, rearm_offline_timers}
use atlas_game_layout.Battle.Sync.{ReconnectResponse}
use atlas_game_layout.Battle.Migrate.{
  then_append, snapshot_of, take_over, rearmed, MigrationState, Storage, exported_state,
  export_state, restore_session_state, append_frames, group_under, by_frame, sorted_frames,
  mark_each, apply_staged_state, restore_if_migrated,
}
use atlas_game_layout.Battle.LastStanding.{has-insert, member-keys}
use atlas_game_layout.Battle.Roster.Names.{enlist-has}
use atlas_game_layout.Battle.Roster.Steps.{rearm_offline_timers-Idle}

mark_each-has :
    {S : Type 0} (storage : Storage S) (q : String) (ps : List String) (m : Map String (Option ℕ))
    → has q (mark_each storage ps m) ≡ (if has q m then true else member q ps)
unfolding mark_each
mark_each-has storage q [] m = ground (arith)
mark_each-has storage q (p ∷ ps) m =
    ground (arith, mark_each-has storage q ps (insert p none m), has-insert p q none m)

-- The writes to the storage do not fail.
pub record IsWritable {S : Type 0} (storage : Storage S) : Type 0 where
  pub saves : (snap : SessionSnapshot) (s : S) → (t : S) × (storage.save_snapshot snap s ≡ some t)
  pub appends :
      (n : ℕ) (is : List simulator.Input) (s : S)
      → (t : S) × (storage.append_inputs n is s ≡ some t)

-- What the marks do not touch.
abbrev Labels : Battle → Battle → Type 0
Labels b c =
    (c.battle_id ≡ b.battle_id)
    × (c.match_id ≡ b.match_id)
    × (c.last_frame ≡ b.last_frame)
    × (c.restored ≡ b.restored)

clear_offline-Labels : (p : String) (b : Battle) → Labels b (clear_offline p b)
unfolding clear_offline
clear_offline-Labels p b = elim (Option-cases (lookup p b.offline)) [
  | inl e ↦ rw (e, clear_offline) (refl, refl, refl, refl)
  | inr f ↦ rw (f.1, clear_offline) (refl, refl, refl, refl)
]

arm_offline-Labels : (cfg : Config) (p : String) (b : Battle) → Labels b (arm_offline cfg p b)
unfolding arm_offline
arm_offline-Labels cfg p b = elim (Bool-cases (ltb_ℤ (pos 0) cfg.offline_timeout)) [
  | inl t ↦ rw (t) (clear_offline-Labels p b)
  | inr f ↦ rw (f) (clear_offline-Labels p b)
]

rearm-Labels : (cfg : Config) (ps : List String) (b : Battle) → Labels b (rearm cfg ps b)
unfolding rearm
rearm-Labels cfg [] b = (refl, refl, refl, refl)
rearm-Labels cfg (p ∷ ps) b =
    let first = arm_offline-Labels cfg p b in
    let rest = rearm-Labels cfg ps (arm_offline cfg p b) in
    (rest.0 ∙ first.0, rest.1 ∙ first.1, rest.2 ∙ first.2, rest.3 ∙ first.3)

rearm_offline_timers-Labels : (cfg : Config) (b : Battle) → Labels b (rearm_offline_timers cfg b)
unfolding rearm_offline_timers
rearm_offline_timers-Labels cfg b = rearm-Labels cfg (keys b.offline) b

not_before : (old epoch : ℕ) → old ≤ epoch → ltb epoch old ≡ false
not_before old epoch le = ground arith

-- The two battles agree for their players.
abbrev pub IsRecovered : Battle → Battle → Type 0
IsRecovered b c =
    (c.battle_id ≡ b.battle_id)
    × (c.match_id ≡ b.match_id)
    × (c.last_frame ≡ b.last_frame)
    × (c.settled ≡ b.settled)
    × ((q : String) → has q c.players ≡ has q b.players)
    × ((q : String) → has q c.offline ≡ has q b.offline)

module _ {S : Type 0} (storage : Storage S) (ok : IsWritable storage) where
  append_frames-some :
      (m : Map ℕ (List simulator.Input)) (ns : List ℕ) (s : S)
      → (t : S) × (append_frames storage m ns s ≡ some t)
  unfolding append_frames
  append_frames-some m [] s = (s, refl)
  append_frames-some m (n ∷ ns) s =
      let one = ok.appends n (group_under (lookup n m)) s in
      let rest = append_frames-some m ns one.0 in (rest.0, rw (one.1, append_frames) rest.1)

  then_append-some :
      (m : Map ℕ (List simulator.Input)) (o : Option S)
      → (t : S) × (o ≡ some t)
      → (t : S) × (then_append storage m o ≡ some t)
  then_append-some m o (t, e) =
      let rest = append_frames-some m (sorted_frames m) t in (rest.0, rw (e) rest.1)

  restore_session_state-some :
      (st : MigrationState) (s : S) → (t : S) × (restore_session_state storage st s ≡ some t)
  unfolding restore_session_state
  restore_session_state-some st s =
      then_append-some (by_frame st.inputs [])
        (if (st.snapshot_frame == 0) && (length st.snapshot_state == 0)
          then some s
          else storage.save_snapshot (snapshot_of storage st) s)
        (if_elim (λ o. (t : S) × (o ≡ some t))
          ((st.snapshot_frame == 0) && (length st.snapshot_state == 0)) {x = some s}
          {y = storage.save_snapshot (snapshot_of storage st) s} (λ h. (s, refl))
          λ h. ok.saves (snapshot_of storage st) s)

  taken : MigrationState → Battle → Battle
  taken st b = record b {
    match_id = st.match_id;
    last_frame = st.last_frame;
    settled = st.settled;
    players = enlist st.players b.players;
    offline = mark_each storage st.offline_marked b.offline;
  }

  taken-IsRecovered :
      (r : ReconnectResponse) (epoch : ℕ) (node : String) (b : Battle)
      → IsRecovered b (taken (exported_state r epoch node b) (new_battle b.battle_id))
  unfolding taken exported_state new_battle
  taken-IsRecovered r epoch node b = (
    refl,
    refl,
    refl,
    refl,
    λ q.
        enlist-has q (sorted_keys b.players) []
        ∙ member-sort q (keys b.players)
        ∙ member-keys q b.players,
    λ q.
        mark_each-has storage q (sorted_keys b.offline) []
        ∙ member-sort q (keys b.offline)
        ∙ member-keys q b.offline,
  )

  apply_staged_state-some :
      (r : ReconnectResponse) (epoch old : ℕ) (node : String) (b : Battle) (s : S)
      → old ≤ epoch
      → (t : S) × (apply_staged_state storage epoch
            (exported_state r old node b)
            (new_battle b.battle_id)
            s
          ≡ some (taken (exported_state r old node b) (new_battle b.battle_id), t))
  unfolding apply_staged_state taken take_over exported_state new_battle
  apply_staged_state-some r epoch old node b s le =
      let st = exported_state r old node b in
      let written = restore_session_state-some st s in
      (
        written.0,
        rw (==_refl b.battle_id) (
            rw (not_before old epoch le)
              (ap (take_over storage st (new_battle b.battle_id)) written.1)),
      )

  rearmed-IsRecovered :
      (cfg : Config) (b c : Battle) (t : S)
      → IsRecovered b c
      → (d : Battle) × (rearmed storage cfg (some (c, t)) ≡ some (d, t))
        × IsRecovered b d
        × (d.restored ≡ true)
  rearmed-IsRecovered cfg b c t i =
      let restored : Battle = record c { restored = true } in
      let armed = rearm_offline_timers cfg restored in
      let d = if restored.settled then restored else armed in
      let l = rearm_offline_timers-Labels cfg restored in
      let same = rearm_offline_timers-Idle cfg restored in
      let at : IsRecovered b armed × (armed.restored ≡ true) = (
        (
          l.0 ∙ i.0,
          l.1 ∙ i.1,
          l.2 ∙ i.2,
          same.0.1 ∙ i.3,
          (λ q. ap (λ m. has q m) same.0.0 ∙ i.4 q),
          λ q. same.1 q ∙ i.5 q,
        ),
        l.3,
      ) in
      let both =
        if_elim (λ x. IsRecovered b x × (x.restored ≡ true)) restored.settled {x = restored}
          {y = armed} (λ h. (i, refl)) λ h. at in
      (d, refl, both.0, both.1)

  -- A new instance under the same name, in an epoch that is not older, takes over the state that the
  -- old owner exports, where the writes to the session's storage do not fail: it has the same
  -- roster, the same marks, the match, the last frame and the outcome, and knows that it was
  -- restored.
  pub restore_if_migrated-export_state :
      (cfg : Config) (r : ReconnectResponse) (epoch old : ℕ) (node : String) (b : Battle) (s : S)
      → old ≤ epoch
      → (d : Battle) × (t : S) × (restore_if_migrated storage cfg epoch
            (export_state (some r) old node b)
            (new_battle b.battle_id)
            s
          ≡ some (d, t))
        × IsRecovered b d
        × (d.restored ≡ true)
  unfolding restore_if_migrated export_state
  restore_if_migrated-export_state cfg r epoch old node b s le =
      let c = taken (exported_state r old node b) (new_battle b.battle_id) in
      let applied = apply_staged_state-some r epoch old node b s le in
      let done = rearmed-IsRecovered cfg b c applied.0 (taken-IsRecovered r old node b) in
      (done.0, applied.0, ap (rearmed storage cfg) applied.1 ∙ done.1, done.2, done.3)

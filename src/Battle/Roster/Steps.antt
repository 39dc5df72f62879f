-- ===== src/Battle/Roster/Steps.antt =====
-- The handlers of services/battle/internal/actor, seen as changes of the roster.
use atlas_game_layout.Common.{
  ◌+◌, times, nat_key, times, ℕ, suc, Map, member, String, Bool, true, false, not, List, [], ◌∷◌,
  Option, none, some, ◌≡◌, refl, sym, ◌∙◌, ap, arith, Unique, insert, delete, Bool-cases,
  Option-cases, inl, inr, lookup, ◌==◌, string_key, str_iff, if◌then◌else◌, if_elim,
}
use atlas_game_layout.Common.Int.{pos, ltb_ℤ}
use atlas_game_layout.Battle.{
  settle, Event, cancel, Battle, Config, World, has, keys, tell_each, publish_out, take_seat,
  release_seat, Outcome,
}
use atlas_game_layout.Battle.Quiet.{
  Final, finals, Quiet, still, take_seat-Quiet, release_seat-Quiet, publish_out-Quiet, settle-Ended,
}
use atlas_game_layout.Battle.Offline.{
  clear_offline, arm_offline, on_player_online, on_player_offline, on_offline_timeout, mark_away,
  time_out, eliminate, last_standing, hold, hold_offline_timers, rearm, rearm_offline_timers,
}
use atlas_game_layout.Battle.LastStanding.{
  member-keys, has-insert, has-delete, last_standing-some, last_standing-none,
}
use atlas_game_layout.Battle.Notices.{Notice, named, about, said, times-keys}
use atlas_game_layout.Battle.Roster.{once, view, Change, idles, marks, clears, drops, wins}

-- What the code keeps of every roster: no name twice, and none empty.
abbrev pub IsNamed : Battle → Type 0
IsNamed b = Unique b.players × (has "" b.players ≡ false)

-- The marks alone may differ.
abbrev pub OnlyMarks : Battle → Battle → Type 0
OnlyMarks b c =
    (c.players ≡ b.players)
    × (c.settled ≡ b.settled)
    × ((k : Final) → finals k c.sent ≡ finals k b.sent)
    × ((n : Notice) → said n c.sent ≡ said n b.sent)

pub clear_offline-marks : (p : String) (b : Battle) → OnlyMarks b (clear_offline p b)
unfolding clear_offline
clear_offline-marks p b = elim (Option-cases (lookup p b.offline)) [
  | inl e ↦ rw (e, clear_offline) (refl, refl, (λ k. refl), λ n. refl)
  | inr f ↦ rw (f.1, clear_offline) (refl, refl, (λ k. refl), λ n. refl)
]

pub clear_offline-Minus :
    (p q : String) (b : Battle)
    → has q (clear_offline p b).offline ≡ (if p == q then false else has q b.offline)
unfolding clear_offline
clear_offline-Minus p q b = elim (Option-cases (lookup p b.offline)) [
  | inl e ↦ rw (e, clear_offline) (ground (arith, str_iff p q, e))
  | inr f ↦ rw (f.1, clear_offline) (has-delete p q b.offline)
]

pub arm_offline-marks : (cfg : Config) (p : String) (b : Battle) → OnlyMarks b (arm_offline cfg p b)
unfolding arm_offline
arm_offline-marks cfg p b = elim (Bool-cases (ltb_ℤ (pos 0) cfg.offline_timeout)) [
  | inl t ↦ rw (t) (clear_offline-marks p b)
  | inr f ↦ rw (f) (clear_offline-marks p b)
]

pub arm_offline-Plus :
    (cfg : Config) (p q : String) (b : Battle)
    → has q (arm_offline cfg p b).offline ≡ (if p == q then true else has q b.offline)
unfolding arm_offline
arm_offline-Plus cfg p q b = elim (Bool-cases (ltb_ℤ (pos 0) cfg.offline_timeout)) [
  | inl t ↦ rw (t) (
      ground (
        arith,
        has-insert p q (some (clear_offline p b).next_timer) (clear_offline p b).offline,
        clear_offline-Minus p q b,
      ))
  | inr f ↦
      rw (f)
        (ground (arith, has-insert p q none (clear_offline p b).offline, clear_offline-Minus p q b))
]

-- Neither the roster nor the set of the marks differs.
abbrev pub Idle : Battle → Battle → Type 0
Idle b c = OnlyMarks b c × ((q : String) → has q c.offline ≡ has q b.offline)

pub Quiet-Idle : (b c : Battle) → Quiet b c → Idle b c
Quiet-Idle b c q = ((q.0, q.2, q.3, q.4), λ p. ap (λ m. has p m) q.1)

pub Idle-trans : (a b c : Battle) → Idle a b → Idle b c → Idle a c
Idle-trans a b c x y = (
  (y.0.0 ∙ x.0.0, y.0.1 ∙ x.0.1, (λ k. y.0.2 k ∙ x.0.2 k), λ n. y.0.3 n ∙ x.0.3 n),
  λ q. y.1 q ∙ x.1 q,
)

module _ (online : String → Bool) (b c : Battle) where
  pub Idle-Change : Idle b c → Change online (view b) (view c)
  unfolding view
  Idle-Change i = idles (λ q. ap (λ m. has q m) i.0.0) i.1 (i.0.1, i.0.2, i.0.3)

-- What a settlement of `c` says, of a battle with the roster of `b` and the same notices.
pub settled-once :
    (winner : String) (b c : Battle)
    → c.players ≡ b.players
    → Unique b.players
    → ((n : Notice) → said n c.sent ≡ said n b.sent)
    → (d : Battle)
    → ((n : Notice)
        → said n d.sent
          ≡ (if winner == named n then times (about n) (keys c.players) else 0) + said n c.sent)
    → (n : Notice) → said n d.sent ≡ once winner (λ q. has q b.players) n + said n b.sent
settled-once winner b c same u kept d h n =
    ground (arith, h n, kept n, same, times-keys (about n) b.players u)

-- Changes after a quiet beginning.
module _ (online : String → Bool) (cfg : Config) (w : World) where
  pub on_player_online-Change :
      (p : String) (b : Battle) → Change online (view b) (view (on_player_online p b))
  unfolding on_player_online view
  on_player_online-Change p b = elim (Bool-cases (not (has p b.players))) [
    | inl t ↦ rw (t) (Idle-Change online b b (Quiet-Idle b b (still b)))
    | inr f ↦ rw (f) (
        let q = take_seat-Quiet p b in
        let m = clear_offline-marks p (take_seat p b) in
        elim (Bool-cases (has p (take_seat p b).offline)) [
          | inl t ↦ rw (t) (
              clears p (λ x. ap (λ s. has x s) (m.0 ∙ q.0))
                (λ x.
                  clear_offline-Minus p x (take_seat p b)
                  ∙ ap (λ s. if p == x then false else has x s) q.1)
                (m.1 ∙ q.2, (λ k. m.2 k ∙ q.3 k), λ n. m.3 n ∙ q.4 n))
          | inr g ↦ rw (g) (Idle-Change online b (take_seat p b) (Quiet-Idle b (take_seat p b) q))
        ])
  ]

  while_open :
      (b c : Battle)
      → (b.settled ≡ false → Change w.online (view b) (view c))
      → Change w.online (view b) (view (if b.settled then b else c))
  while_open b c h =
      if_elim (λ x. Change w.online (view b) (view x)) b.settled {x = b} {y = c}
        (λ t. Idle-Change w.online b b (Quiet-Idle b b (still b))) h

  -- A mark on a player of the roster who is not online, after a quiet beginning.
  mark_after :
      (p : String) (b c d : Battle)
      → b.settled ≡ false
      → has p b.players ≡ true
      → w.online p ≡ false
      → Quiet b c
      → OnlyMarks c d
      → ((q : String) → has q d.offline ≡ (if p == q then true else has q c.offline))
      → Change w.online (view b) (view d)
  unfolding view
  mark_after p b c d hs hp ho q m h =
      marks p hs hp ho (λ x. ap (λ s. has x s) (m.0 ∙ q.0))
        (λ x. h x ∙ ap (λ s. if p == x then true else has x s) q.1)
        (m.1 ∙ q.2, (λ k. m.2 k ∙ q.3 k), λ n. m.3 n ∙ q.4 n)

  pub on_player_offline-Change :
      (p : String) (b : Battle) → Change w.online (view b) (view (on_player_offline cfg w p b))
  unfolding on_player_offline
  on_player_offline-Change p b =
      let free = release_seat p b in
      let q = release_seat-Quiet p b in
      let quiet = Idle-Change w.online b free (Quiet-Idle b free q) in
      while_open b (mark_away cfg w p b) λ hs. (elim (Bool-cases (has p free.players)) [
        | inr f ↦ rw (f) quiet
        | inl hp ↦ rw (hp) (elim (Bool-cases (has p free.offline)) [
          | inl t ↦ rw (t) quiet
          | inr f ↦ rw (f) (elim (Bool-cases (w.online p)) [
            | inl t ↦ rw (t) quiet
            | inr ho ↦ rw (ho) (
                let held : Battle = record free { offline = insert p none free.offline } in
                let armed = arm_offline cfg p free in
                let hp' = ap (λ s. has p s) (sym q.0) ∙ hp in
                if_elim (λ x. Change w.online (view b) (view x)) free.migration {x = held}
                  {y = armed}
                  (λ t.
                    mark_after p b free held hs hp' ho q (refl, refl, (λ k. refl), λ n. refl)
                      λ x. has-insert p x none free.offline)
                  (λ f.
                    mark_after p b free armed hs hp' ho q (arm_offline-marks cfg p free)
                      λ x. arm_offline-Plus cfg p x free))
          ])
        ])
      ])

  eliminate-wins :
      (p winner : String) (b : Battle)
      → IsNamed b
      → b.settled ≡ false
      → has p b.players ≡ true
      → has p b.offline ≡ true
      → w.online p ≡ false
      → last_standing b.players p ≡ some winner
      → Change w.online (view b) (view (eliminate cfg w p b))
  unfolding eliminate view
  eliminate-wins p winner b n hs hp hm ho e =
      rw (e, eliminate)
        (let told = tell_each (λ q. publish_out q p) (keys b.players) b in
          let q = publish_out-Quiet p (keys b.players) b in
          let clear = clear_offline p told in
          let m = clear_offline-marks p told in
          let out : Outcome = record { winner = winner; frames = b.last_frame; scores = [] } in
          let s = settle-Ended cfg w out clear (m.1 ∙ q.2 ∙ hs) in
          wins p winner (hs, hp, hm, ho) (last_standing-some b.players p n.0 n.1 winner e)
            (λ x. ap (λ l. has x l) (s.0 ∙ m.0 ∙ q.0))
            (λ x.
              ap (λ l. has x l) s.1
              ∙ clear_offline-Minus p x told
              ∙ ap (λ l. if p == x then false else has x l) q.1)
            (
              hs,
              s.2,
              (λ k. s.3 k ∙ ap suc (m.2 k ∙ q.3 k)),
              settled-once winner b clear (m.0 ∙ q.0) n.0 (λ x. m.3 x ∙ q.4 x)
                  (settle cfg w out clear) s.4,
            ))

  eliminate-drops :
      (p : String) (b : Battle)
      → IsNamed b
      → b.settled ≡ false
      → has p b.players ≡ true
      → has p b.offline ≡ true
      → w.online p ≡ false
      → last_standing b.players p ≡ none
      → Change w.online (view b) (view (eliminate cfg w p b))
  unfolding eliminate view
  eliminate-drops p b n hs hp hm ho e =
      rw (e, eliminate)
        (let told = tell_each (λ q. publish_out q p) (keys b.players) b in
          let q = publish_out-Quiet p (keys b.players) b in
          let left : Battle = record told { players = delete p told.players } in
          let m = clear_offline-marks p left in
          drops p (hs, hp, hm, ho) (λ x l. last_standing-none b.players p n.0 n.1 x e l)
            (λ x.
              ap (λ l. has x l) m.0
              ∙ has-delete p x told.players
              ∙ ap (λ l. if p == x then false else has x l) q.0)
            (λ x. clear_offline-Minus p x left ∙ ap (λ l. if p == x then false else has x l) q.1)
            (m.1 ∙ q.2, (λ k. m.2 k ∙ q.3 k), λ n. m.3 n ∙ q.4 n))

  clears_alone : (p : String) (b : Battle) → Change w.online (view b) (view (clear_offline p b))
  unfolding view
  clears_alone p b =
      let m = clear_offline-marks p b in
      clears p (λ x. ap (λ l. has x l) m.0) (λ x. clear_offline-Minus p x b) (m.1, m.2, m.3)

  pub on_offline_timeout-Change :
      (p : String) (b : Battle)
      → IsNamed b
      → Change w.online (view b) (view (on_offline_timeout cfg w p b))
  unfolding on_offline_timeout
  on_offline_timeout-Change p b n =
      let same = Idle-Change w.online b b (Quiet-Idle b b (still b)) in
      while_open b (time_out cfg w p b) λ hs. (elim (Bool-cases (has p b.offline)) [
        | inr f ↦ rw (f) same
        | inl hm ↦ rw (hm) (elim (Bool-cases (has p b.players)) [
          | inr f ↦ rw (f) (clears_alone p b)
          | inl hp ↦ rw (hp) (elim (Bool-cases (w.online p)) [
            | inl t ↦ rw (t) (clears_alone p b)
            | inr ho ↦ rw (ho) (elim (Option-cases (last_standing b.players p)) [
              | inl e ↦ eliminate-drops p b n hs hp hm ho e
              | inr f ↦ eliminate-wins p f.0 b n hs hp hm ho f.1
            ])
          ])
        ])
      ])

pub hold-Same :
    (q : String) (held : Map String (Option ℕ)) (timers : Map ℕ Event)
    → has q (hold held timers).0 ≡ has q held
unfolding hold
hold-Same q [] timers = refl
hold-Same q ((p, t) ∷ held) timers = ground (arith, hold-Same q held (cancel t timers))

pub hold_offline_timers-Idle : (b : Battle) → Idle b (hold_offline_timers b)
unfolding hold_offline_timers
hold_offline_timers-Idle b =
    ((refl, refl, (λ k. refl), λ n. refl), λ q. hold-Same q b.offline b.timers)

arm_offline-Idle :
    (cfg : Config) (p : String) (b : Battle) → has p b.offline ≡ true → Idle b (arm_offline cfg p b)
arm_offline-Idle cfg p b h =
    (arm_offline-marks cfg p b, λ q. ground (arith, arm_offline-Plus cfg p q b, str_iff p q, h))

pub rearm-Idle :
    (cfg : Config) (ps : List String) (b : Battle)
    → ((p : String) → member p ps ≡ true → has p b.offline ≡ true)
    → Idle b (rearm cfg ps b)
unfolding rearm
rearm-Idle cfg [] b h = Quiet-Idle b b (still b)
rearm-Idle cfg (p ∷ ps) b h =
    let first = arm_offline-Idle cfg p b (h p (ground (arith, str_iff p p))) in
    Idle-trans b (arm_offline cfg p b) (rearm cfg ps (arm_offline cfg p b)) first
      (rearm-Idle cfg ps (arm_offline cfg p b) λ q m. first.1 q ∙ h q (ground (arith, str_iff p q)))

pub rearm_offline_timers-Idle : (cfg : Config) (b : Battle) → Idle b (rearm_offline_timers cfg b)
unfolding rearm_offline_timers
rearm_offline_timers-Idle cfg b =
    rearm-Idle cfg (keys b.offline) b λ p m. sym (member-keys p b.offline) ∙ m

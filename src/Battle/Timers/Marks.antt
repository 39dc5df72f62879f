-- ===== src/Battle/Timers/Marks.antt =====
-- Marks and their timers under the functions of services/battle/internal/actor/battle_offline.go.
use atlas_game_layout.Common.{
  ℕ, suc, ◌<◌, String, true, false, List, [], ◌∷◌, Option, none, some, ◌≡◌, ◌≢◌, refl, sym, ◌∙◌, ap,
  subst, arith, Map, insert, delete, lookup-insert, lookup-delete, Bool-cases, Option-cases, inl,
  inr, lookup, ◌==◌, nat_key, string_key, str_iff, nat_beq_iff,
}
use atlas_game_layout.Common.Int.{pos, ltb_ℤ}
use atlas_game_layout.Battle.{Battle, Config, Event, offline_timeout, seat_window_expired, cancel}
use atlas_game_layout.Battle.Offline.{clear_offline, arm_offline, hold, rearm}
use atlas_game_layout.Battle.Timers.{IsTimed}

cancel-lookup :
    (t : Option ℕ) (n : ℕ) (e : Event) (timers : Map ℕ Event)
    → lookup n (cancel t timers) ≡ some e
    → (lookup n timers ≡ some e) × (t ≢ some n)
cancel-lookup none n e timers h = (h, λ x. ground (arith, x))
cancel-lookup (some m) n e timers h = (
  ground (arith, lookup-delete m n timers, h),
  λ x. ground (arith, x, lookup-delete m n timers, h, nat_beq_iff m n),
)

-- The mark of `p` goes, and its timer with it.
cleared-IsTimed :
    (p : String) (t : Option ℕ) (b : Battle)
    → lookup p b.offline ≡ some t
    → IsTimed b
    → IsTimed (record b { offline = delete p b.offline; timers = cancel t b.timers })
cleared-IsTimed p t b e i = record {
  owned = λ n q h.
      let c = cancel-lookup t n (offline_timeout q) b.timers h in
      let o = i.owned n q c.0 in
      elim (Bool-cases (p == q)) [
        | inl y ↦
            absurd (c.1 (ground (arith, e, o, ap (λ x. lookup x b.offline) ((str_iff p q).0 y))))
        | inr f ↦ ground (arith, lookup-delete p q b.offline, f, o)
      ];
  fresh = λ n x h. i.fresh n x (cancel-lookup t n x b.timers h).0;
  held = λ m q n h. i.held m q n (ground (arith, lookup-delete p q b.offline, h));
}

abbrev pub KeepsClock : Battle → Battle → Type 0
KeepsClock b c = (c.next_timer ≡ b.next_timer) × (c.migration ≡ b.migration)

pub clear_offline-IsTimed :
    (p : String) (b : Battle)
    → IsTimed b
    → IsTimed (clear_offline p b)
      × (lookup p (clear_offline p b).offline ≡ none)
      × KeepsClock b (clear_offline p b)
unfolding clear_offline
clear_offline-IsTimed p b i = elim (Option-cases (lookup p b.offline)) [
  | inl e ↦ rw (e, clear_offline) (i, e, (refl, refl))
  | inr f ↦
      rw (f.1, clear_offline)
        (
          cleared-IsTimed p f.0 b f.1 i,
          ground (arith, lookup-delete p p b.offline, str_iff p p),
          (refl, refl),
        )
]

-- A new mark without a timer.
pub marked-IsTimed :
    (p : String) (b : Battle)
    → lookup p b.offline ≡ none
    → IsTimed b
    → IsTimed (record b { offline = insert p none b.offline })
marked-IsTimed p b e i = record {
  owned = λ n q h.
      let o = i.owned n q h in
      elim (Bool-cases (p == q)) [
        | inl y ↦ absurd (ground (arith, e, o, ap (λ x. lookup x b.offline) ((str_iff p q).0 y)))
        | inr f ↦ ground (arith, lookup-insert p q none b.offline, f, o)
      ];
  fresh = i.fresh;
  held = λ m q n h. i.held m q n (ground (arith, lookup-insert p q none b.offline, h));
}

-- A new mark with a timer, outside the window.
armed-IsTimed :
    (p : String) (b : Battle)
    → lookup p b.offline ≡ none
    → b.migration ≡ false
    → IsTimed b
    → IsTimed (record b {
      offline = insert p (some b.next_timer) b.offline;
      next_timer = suc b.next_timer;
      timers = insert b.next_timer (offline_timeout p) b.timers;
    })
armed-IsTimed p b e m i = record {
  owned = λ n q h. elim (Bool-cases (b.next_timer == n)) [
    | inl y ↦
        let same : offline_timeout p ≡ offline_timeout q =
          ground (arith, lookup-insert b.next_timer n (offline_timeout p) b.timers, y, h) in
        let pq : p ≡ q = ground (arith, same) in
        ground (
          arith,
          lookup-insert p q (some b.next_timer) b.offline,
          str_iff p q,
          pq,
          nat_beq_iff b.next_timer n,
          y,
        )
    | inr f ↦
        let o =
          i.owned n q
            (ground (arith, lookup-insert b.next_timer n (offline_timeout p) b.timers, f, h)) in
        elim (Bool-cases (p == q)) [
          | inl y ↦ absurd (ground (arith, e, o, ap (λ x. lookup x b.offline) ((str_iff p q).0 y)))
          | inr g ↦ ground (arith, lookup-insert p q (some b.next_timer) b.offline, g, o)
        ]
  ];
  fresh = λ n x h. elim (Bool-cases (b.next_timer == n)) [
    | inl y ↦ ground (arith, nat_beq_iff b.next_timer n, y)
    | inr f ↦
        let old =
          i.fresh n x
            (ground (arith, lookup-insert b.next_timer n (offline_timeout p) b.timers, f, h)) in
        omega (arith, old)
  ];
  held = λ t q n h. absurd (ground (arith, t, m));
}

pub arm_offline-IsTimed :
    (cfg : Config) (p : String) (b : Battle)
    → b.migration ≡ false
    → IsTimed b
    → IsTimed (arm_offline cfg p b) × ((arm_offline cfg p b).migration ≡ false)
unfolding arm_offline
arm_offline-IsTimed cfg p b m i =
    let c = clear_offline-IsTimed p b i in
    let clear = clear_offline p b in
    let m' : clear.migration ≡ false = c.2.1 ∙ m in
    elim (Bool-cases (ltb_ℤ (pos 0) cfg.offline_timeout)) [
      | inl t ↦ rw (t) (armed-IsTimed p clear c.1 m' c.0, m')
      | inr f ↦ rw (f) (marked-IsTimed p clear c.1 c.0, m')
    ]

pub rearm-IsTimed :
    (cfg : Config) (ps : List String) (b : Battle)
    → b.migration ≡ false
    → IsTimed b
    → IsTimed (rearm cfg ps b)
unfolding rearm
rearm-IsTimed cfg [] b m i = i
rearm-IsTimed cfg (p ∷ ps) b m i =
    let next = arm_offline-IsTimed cfg p b m i in
    rearm-IsTimed cfg ps (arm_offline cfg p b) next.1 next.0

hold-lookup :
    (marks : Map String (Option ℕ)) (timers : Map ℕ Event) (n : ℕ) (e : Event)
    → lookup n (hold marks timers).1 ≡ some e
    → (lookup n timers ≡ some e) × ((q : String) → lookup q marks ≡ some (some n) → ⊥)
unfolding hold
hold-lookup [] timers n e h = (h, λ q x. ground (arith, x))
hold-lookup ((p, t) ∷ marks) timers n e h =
    let rest = hold-lookup marks (cancel t timers) n e h in
    let c = cancel-lookup t n e timers rest.0 in
    (
      c.0,
      λ q x. elim (Bool-cases (p == q)) [
        | inl y ↦ c.1 (ground (arith, x, y))
        | inr f ↦ rest.1 q (ground (arith, x, f))
      ],
    )

hold-none :
    (marks : Map String (Option ℕ)) (timers : Map ℕ Event) (q : String) (n : ℕ)
    → lookup q (hold marks timers).0 ≡ some (some n)
    → ⊥
unfolding hold
hold-none [] timers q n h = ground (arith, h)
hold-none ((p, t) ∷ marks) timers q n h = elim (Bool-cases (p == q)) [
  | inl y ↦ ground (arith, h, y)
  | inr f ↦ hold-none marks (cancel t timers) q n (ground (arith, h, f))
]

-- Inside the window no mark keeps its timer.
pub held-IsTimed :
    (b : Battle)
    → IsTimed b
    → IsTimed (record b {
      migration = true;
      offline = (hold b.offline b.timers).0;
      timers = (hold b.offline b.timers).1;
    })
held-IsTimed b i = record {
  owned = λ n p h.
      let l = hold-lookup b.offline b.timers n (offline_timeout p) h in
      absurd (l.1 p (i.owned n p l.0));
  fresh = λ n e h. i.fresh n e (hold-lookup b.offline b.timers n e h).0;
  held = λ m p n h. hold-none b.offline b.timers p n h;
}

-- Timers may go, where the marks stay.
abbrev pub Shrinks : Battle → Battle → Type 0
Shrinks b c =
    (c.offline ≡ b.offline)
    × (c.next_timer ≡ b.next_timer)
    × (c.migration ≡ b.migration)
    × ((n : ℕ) (e : Event) → lookup n c.timers ≡ some e → lookup n b.timers ≡ some e)

pub Shrinks-IsTimed : (b c : Battle) → Shrinks b c → IsTimed b → IsTimed c
Shrinks-IsTimed b c s i = record {
  owned = λ n p h. ap (λ m. lookup p m) s.0 ∙ i.owned n p (s.3 n (offline_timeout p) h);
  fresh = λ n e h. subst (λ k. n < k) (sym s.1) (i.fresh n e (s.3 n e h));
  held = λ m p n h. i.held (sym s.2 ∙ m) p n (sym (ap (λ x. lookup p x) s.0) ∙ h);
}

pub cancel-Shrinks :
    (t : Option ℕ) (n : ℕ) (e : Event) (timers : Map ℕ Event)
    → lookup n (cancel t timers) ≡ some e
    → lookup n timers ≡ some e
cancel-Shrinks t n e timers h = (cancel-lookup t n e timers h).0

-- The timer of the seat window.
pub seating-IsTimed :
    (b : Battle)
    → IsTimed b
    → IsTimed (record b {
      next_timer = suc b.next_timer;
      timers = insert b.next_timer seat_window_expired b.timers;
    })
seating-IsTimed b i = record {
  owned = λ n p h.
      i.owned n p (ground (arith, lookup-insert b.next_timer n seat_window_expired b.timers, h));
  fresh = λ n e h. elim (Bool-cases (b.next_timer == n)) [
    | inl y ↦ ground (arith, nat_beq_iff b.next_timer n, y)
    | inr f ↦
        let old =
          i.fresh n e
            (ground (arith, lookup-insert b.next_timer n seat_window_expired b.timers, f, h)) in
        omega (arith, old)
  ];
  held = i.held;
}

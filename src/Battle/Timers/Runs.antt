-- ===== src/Battle/Timers/Runs.antt =====
-- The timers of the marks over every message of services/battle/internal/actor.
use atlas_game_layout.Common.{
  suc, String, true, false, not, List, [], ◌∷◌, none, ◌≡◌, refl, ◌∙◌, arith, insert, delete, leb,
  length, Bool-cases, Option-cases, inl, inr, lookup, ◌==◌, nat_key, string_key, if◌then◌else◌,
  if_elim,
}
use atlas_game_layout.Common.Int.{pos, ltb_ℤ}
use atlas_game_layout.Battle.{
  Battle, Config, World, Sent, seat_window_expired, has, keys, tell, tell_each, cancel_seating,
  start_battle, begin_seating, take_seat, seat, release_seat, Outcome, settle, announce,
  record_locally, record_shared_ended, publish_out, publish_end, pause_session, result_of,
  publish_settled, save_result,
}
use atlas_game_layout.Battle.Offline.{
  clear_offline, arm_offline, on_player_online, on_player_offline, on_offline_timeout, eliminate,
  last_standing, mark_away, time_out,
}
use atlas_game_layout.Battle.Timers.{IsTimed}
use atlas_game_layout.Battle.Timers.Marks.{
  Shrinks, Shrinks-IsTimed, cancel-Shrinks, seating-IsTimed, arm_offline-IsTimed, marked-IsTimed,
  clear_offline-IsTimed,
}

pub still : (b : Battle) → Shrinks b b
still b = (refl, refl, refl, λ n e h. h)

pub Shrinks-trans : (a b c : Battle) → Shrinks a b → Shrinks b c → Shrinks a c
Shrinks-trans a b c p q = (q.0 ∙ p.0, q.1 ∙ p.1, q.2 ∙ p.2, λ n e h. p.3 n e (q.3 n e h))

pub start_battle-Shrinks : (b : Battle) → Shrinks b (start_battle b)
unfolding start_battle cancel_seating
start_battle-Shrinks b = elim (Bool-cases b.seating) [
  | inl t ↦ rw (t) (refl, refl, refl, λ n e h. cancel-Shrinks b.seat_timer n e b.timers h)
  | inr f ↦ rw (f) (still b)
]

take_seat-Shrinks : (p : String) (b : Battle) → Shrinks b (take_seat p b)
unfolding take_seat
take_seat-Shrinks p b = elim (Bool-cases (not b.seating)) [
  | inl t ↦ rw (t) (still b)
  | inr f ↦ rw (f) (elim (Bool-cases (not (has p b.players))) [
    | inl t ↦ rw (t) (still b)
    | inr g ↦ rw (g) (elim (Bool-cases (leb (length b.players) (length (seat p b).seated))) [
      | inl t ↦ rw (t) (start_battle-Shrinks (seat p b))
      | inr e ↦ rw (e) (still b)
    ])
  ])
]

release_seat-Shrinks : (p : String) (b : Battle) → Shrinks b (release_seat p b)
unfolding release_seat
release_seat-Shrinks p b = elim (Bool-cases b.seating) [
  | inl t ↦ rw (t) (still b)
  | inr f ↦ rw (f) (still b)
]

tell_each-Shrinks :
    (f : String → Sent) (ps : List String) (b : Battle) → Shrinks b (tell_each f ps b)
tell_each-Shrinks f [] b = still b
tell_each-Shrinks f (p ∷ ps) b = tell_each-Shrinks f ps (tell (f p) b)

record_locally-Shrinks :
    (cfg : Config) (out : Outcome) (b : Battle) → Shrinks b (record_locally cfg out b)
record_locally-Shrinks cfg out b = elim (Bool-cases cfg.has_ledger) [
  | inl t ↦ rw (t) (still b)
  | inr f ↦ rw (f) (still b)
]

record_shared_ended-Shrinks :
    (cfg : Config) (out : Outcome) (b : Battle) → Shrinks b (record_shared_ended cfg out b)
unfolding record_shared_ended
record_shared_ended-Shrinks cfg out b = elim (Bool-cases cfg.has_shared) [
  | inl t ↦ rw (t) (still b)
  | inr f ↦ rw (f) (still b)
]

announce-Shrinks : (w : World) (out : Outcome) (b c : Battle) → Shrinks c (announce w out b c)
announce-Shrinks w out b c =
    let res = result_of w.now out b in
    let saved = tell (publish_settled res.players) (tell (save_result res) c) in
    tell_each-Shrinks (λ p. publish_end p out.winner) (keys b.players) saved

pub settle-Shrinks :
    (cfg : Config) (w : World) (out : Outcome) (b : Battle) → Shrinks b (settle cfg w out b)
unfolding settle cancel_seating
settle-Shrinks cfg w out b =
    let closed = cancel_seating (record b { settled = true }) in
    let local = record_locally cfg out closed in
    let shared = record_shared_ended cfg out local in
    let end = announce w out b shared in
    let first : Shrinks b closed =
      (refl, refl, refl, λ n e h. cancel-Shrinks b.seat_timer n e b.timers h) in
    let both = Shrinks-trans b closed local first (record_locally-Shrinks cfg out closed) in
    let all = Shrinks-trans b local shared both (record_shared_ended-Shrinks cfg out local) in
    if_elim (Shrinks b) b.settled {x = b} {y = end} (λ t. still b)
      λ f. Shrinks-trans b shared end all (announce-Shrinks w out b shared)

pub begin_seating-IsTimed :
    (cfg : Config) (w : World) (b : Battle) → IsTimed b → IsTimed (begin_seating cfg w b)
unfolding begin_seating
begin_seating-IsTimed cfg w b i =
    let armed : Battle = record b {
      next_timer = suc b.next_timer;
      timers = insert b.next_timer seat_window_expired b.timers;
    } in
    elim (Bool-cases (not (ltb_ℤ (pos 0) cfg.seat_window))) [
      | inl t ↦ rw (t) i
      | inr f ↦ rw (f) (elim (Bool-cases (length b.players == 0)) [
        | inl t ↦ rw (t) i
        | inr g ↦ rw (g) (elim (Bool-cases (w.delivered (pause_session "seat_window"))) [
          | inl t ↦ rw (t) (Shrinks-IsTimed armed _ (still armed) (seating-IsTimed b i))
          | inr e ↦ rw (e) (Shrinks-IsTimed b (tell (pause_session "seat_window") b) (still b) i)
        ])
      ])
    ]

clear_IsTimed : (p : String) (b : Battle) → IsTimed b → IsTimed (clear_offline p b)
clear_IsTimed p b i = (clear_offline-IsTimed p b i).0

pub on_player_online-IsTimed :
    (p : String) (b : Battle) → IsTimed b → IsTimed (on_player_online p b)
unfolding on_player_online
on_player_online-IsTimed p b i =
    let seated = take_seat p b in
    let m = Shrinks-IsTimed b seated (take_seat-Shrinks p b) i in
    if_elim IsTimed (not (has p b.players)) {x = b}
      {y = if has p seated.offline then clear_offline p seated else seated} (λ t. i)
      λ f.
        if_elim IsTimed (has p seated.offline) {x = clear_offline p seated} {y = seated}
          (λ t. clear_IsTimed p seated m) λ g. m

lookup-has : (p : String) (b : Battle) → has p b.offline ≡ false → lookup p b.offline ≡ none
lookup-has p b h = ground (arith, h)

pub on_player_offline-IsTimed :
    (cfg : Config) (w : World) (p : String) (b : Battle)
    → IsTimed b
    → IsTimed (on_player_offline cfg w p b)
unfolding on_player_offline
on_player_offline-IsTimed cfg w p b i =
    let free = release_seat p b in
    let m = Shrinks-IsTimed b free (release_seat-Shrinks p b) i in
    let held : Battle = record free { offline = insert p none free.offline } in
    let armed = arm_offline cfg p free in
    let third = if free.migration then held else armed in
    let second = if w.online p then free else third in
    let first = if has p free.offline then free else second in
    if_elim IsTimed b.settled {x = b} {y = mark_away cfg w p b} (λ t. i)
      λ f.
        if_elim IsTimed (has p free.players) {x = first} {y = free}
          (λ t.
            if_elim IsTimed (has p free.offline) {x = free} {y = second} (λ t. m)
              λ unmarked.
                if_elim IsTimed (w.online p) {x = free} {y = third} (λ t. m)
                  λ f.
                    if_elim IsTimed free.migration {x = held} {y = armed}
                      (λ t. marked-IsTimed p free (lookup-has p free unmarked) m)
                      λ f. (arm_offline-IsTimed cfg p free f m).0)
          λ f. m

eliminate-IsTimed :
    (cfg : Config) (w : World) (p : String) (b : Battle) → IsTimed b → IsTimed (eliminate cfg w p b)
unfolding eliminate
eliminate-IsTimed cfg w p b i =
    let told = tell_each (λ q. publish_out q p) (keys b.players) b in
    let m =
      Shrinks-IsTimed b told (tell_each-Shrinks (λ q. publish_out q p) (keys b.players) b) i in
    elim (Option-cases (last_standing b.players p)) [
      | inl e ↦
          rw (e, eliminate)
            (let left : Battle = record told { players = delete p told.players } in
              clear_IsTimed p left (Shrinks-IsTimed told left (still told) m))
      | inr f ↦
          rw (f.1, eliminate)
            (let out : Outcome = record { winner = f.0; frames = b.last_frame; scores = [] } in
              let clear = clear_offline p told in
              Shrinks-IsTimed clear (settle cfg w out clear) (settle-Shrinks cfg w out clear)
                (clear_IsTimed p told m))
    ]

pub on_offline_timeout-IsTimed :
    (cfg : Config) (w : World) (p : String) (b : Battle)
    → IsTimed b
    → IsTimed (on_offline_timeout cfg w p b)
unfolding on_offline_timeout
on_offline_timeout-IsTimed cfg w p b i =
    let c = clear_offline p b in
    let out = eliminate cfg w p b in
    let third = if w.online p then c else out in
    let second = if has p b.players then third else c in
    let m = clear_IsTimed p b i in
    if_elim IsTimed b.settled {x = b} {y = time_out cfg w p b} (λ t. i)
      λ hs.
        if_elim IsTimed (has p b.offline) {x = second} {y = b}
          (λ t.
            if_elim IsTimed (has p b.players) {x = third} {y = c}
              (λ t.
                if_elim IsTimed (w.online p) {x = c} {y = out} (λ t. m)
                  λ f. eliminate-IsTimed cfg w p b i)
              λ f. m)
          λ f. i

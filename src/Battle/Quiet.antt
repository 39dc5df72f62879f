-- ===== src/Battle/Quiet.antt =====
-- What the seat window and the broadcasts of services/battle/internal/actor leave alone.
use atlas_game_layout.Common.{
  if◌then◌else◌, times, ℕ, suc, ◌+◌, ◌-◌, String, true, false, not, List, [], ◌∷◌, ◌≡◌, refl, ◌∙◌,
  arith, Bool-cases, inl, inr, ◌==◌, string_key, nat_key, leb, length,
}
use atlas_game_layout.Common.Int.{pos, ltb_ℤ}
use atlas_game_layout.Battle.Notices.{Notice, named, about, said, said-publish_end, said_once}
use atlas_game_layout.Battle.{
  result_of, announce, record_locally, Config, World, Battle, Sent, save_result, publish_settled,
  close_battle, stop, tell, tell_each, Outcome, settle, cancel_seating, record_shared_ended,
  start_battle, begin_seating, take_seat, seat, release_seat, publish_end, publish_out, keys, has,
  pause_session,
}

-- What a settlement sends once.
pub data Final : Type 0 where
  saving announcing closing stopping : Final

abbrev pub tally : Final → Final → ℕ
tally saving saving = 1
tally announcing announcing = 1
tally closing closing = 1
tally stopping stopping = 1
tally _ _ = 0

-- How many messages of a kind were sent.
abbrev pub finals : Final → List Sent → ℕ
finals k [] = 0
finals k (s ∷ ss) = elim s [
  | save_result r ↦ tally k saving + finals k ss
  | publish_settled ps ↦ tally k announcing + finals k ss
  | close_battle ↦ tally k closing + finals k ss
  | stop ↦ tally k stopping + finals k ss
  | _ ↦ finals k ss
]

abbrev pub Quiet : Battle → Battle → Type 0
Quiet b c =
    (c.players ≡ b.players)
    × (c.offline ≡ b.offline)
    × (c.settled ≡ b.settled)
    × ((k : Final) → finals k c.sent ≡ finals k b.sent)
    × ((n : Notice) → said n c.sent ≡ said n b.sent)

pub still : (b : Battle) → Quiet b b
still b = (refl, refl, refl, (λ k. refl), λ n. refl)

pub Quiet-trans : (a b c : Battle) → Quiet a b → Quiet b c → Quiet a c
Quiet-trans a b c p q = (q.0 ∙ p.0, q.1 ∙ p.1, q.2 ∙ p.2, (λ k. q.3 k ∙ p.3 k), λ n. q.4 n ∙ p.4 n)

pub start_battle-Quiet : (b : Battle) → Quiet b (start_battle b)
unfolding start_battle cancel_seating
start_battle-Quiet b = elim (Bool-cases b.seating) [
  | inl t ↦ rw (t) (refl, refl, refl, (λ k. refl), λ n. refl)
  | inr f ↦ rw (f) (still b)
]

pub begin_seating-Quiet : (cfg : Config) (w : World) (b : Battle) → Quiet b (begin_seating cfg w b)
unfolding begin_seating
begin_seating-Quiet cfg w b = elim (Bool-cases (not (ltb_ℤ (pos 0) cfg.seat_window))) [
  | inl t ↦ rw (t) (still b)
  | inr f ↦ rw (f) (elim (Bool-cases (length b.players == 0)) [
    | inl t ↦ rw (t) (still b)
    | inr g ↦ rw (g) (elim (Bool-cases (w.delivered (pause_session "seat_window"))) [
      | inl t ↦ rw (t) (refl, refl, refl, (λ k. refl), λ n. refl)
      | inr e ↦ rw (e) (refl, refl, refl, (λ k. refl), λ n. refl)
    ])
  ])
]

pub take_seat-Quiet : (p : String) (b : Battle) → Quiet b (take_seat p b)
unfolding take_seat
take_seat-Quiet p b = elim (Bool-cases (not b.seating)) [
  | inl t ↦ rw (t) (still b)
  | inr f ↦ rw (f) (elim (Bool-cases (not (has p b.players))) [
    | inl t ↦ rw (t) (still b)
    | inr g ↦ rw (g) (elim (Bool-cases (leb (length b.players) (length (seat p b).seated))) [
      | inl t ↦ rw (t) (start_battle-Quiet (seat p b))
      | inr e ↦ rw (e) (still b)
    ])
  ])
]

pub release_seat-Quiet : (p : String) (b : Battle) → Quiet b (release_seat p b)
unfolding release_seat
release_seat-Quiet p b = elim (Bool-cases b.seating) [
  | inl t ↦ rw (t) (still b)
  | inr f ↦ rw (f) (still b)
]

pub publish_out-Quiet :
    (who : String) (ps : List String) (b : Battle)
    → Quiet b (tell_each (λ q. publish_out q who) ps b)
publish_out-Quiet who [] b = still b
publish_out-Quiet who (p ∷ ps) b = publish_out-Quiet who ps (tell (publish_out p who) b)

publish_end-finals :
    (k : Final) (winner : String) (ps : List String) (b : Battle)
    → finals k (tell_each (λ p. publish_end p winner) ps b).sent ≡ finals k b.sent
publish_end-finals k winner [] b = refl
publish_end-finals k winner (p ∷ ps) b =
    publish_end-finals k winner ps (tell (publish_end p winner) b)

publish_end-roster :
    (winner : String) (ps : List String) (b : Battle)
    → let c = tell_each (λ p. publish_end p winner) ps b in
      (c.players ≡ b.players) × (c.offline ≡ b.offline) × (c.settled ≡ b.settled)
publish_end-roster winner [] b = (refl, refl, refl)
publish_end-roster winner (p ∷ ps) b = publish_end-roster winner ps (tell (publish_end p winner) b)

record_locally-Quiet :
    (cfg : Config) (out : Outcome) (b : Battle) → Quiet b (record_locally cfg out b)
record_locally-Quiet cfg out b = elim (Bool-cases cfg.has_ledger) [
  | inl t ↦ rw (t) (refl, refl, refl, (λ k. refl), λ n. refl)
  | inr f ↦ rw (f) (still b)
]

record_shared_ended-Quiet :
    (cfg : Config) (out : Outcome) (b : Battle) → Quiet b (record_shared_ended cfg out b)
unfolding record_shared_ended
record_shared_ended-Quiet cfg out b = elim (Bool-cases cfg.has_shared) [
  | inl t ↦ rw (t) (refl, refl, refl, (λ k. refl), λ n. refl)
  | inr f ↦ rw (f) (still b)
]

-- The battle is over, each of the final messages was sent once more, and they name the winner.
abbrev pub Ended : String → Battle → Battle → Type 0
Ended winner b c =
    (c.players ≡ b.players)
    × (c.offline ≡ b.offline)
    × (c.settled ≡ true)
    × ((k : Final) → finals k c.sent ≡ suc (finals k b.sent))
    × ((n : Notice)
        → said n c.sent
          ≡ (if winner == named n then times (about n) (keys b.players) else 0) + said n b.sent)

tally_all :
    (k : Final) (n : ℕ)
    → tally k stopping + (tally k closing + n) ≡ suc n - tally k announcing - tally k saving
tally_all saving n = omega arith
tally_all announcing n = omega arith
tally_all closing n = omega arith
tally_all stopping n = omega arith

announce-Ended :
    (w : World) (out : Outcome) (b c : Battle)
    → c.players ≡ b.players
    → c.offline ≡ b.offline
    → c.settled ≡ true
    → ((k : Final) → finals k c.sent ≡ finals k b.sent)
    → ((n : Notice) → said n c.sent ≡ said n b.sent)
    → Ended out.winner b (announce w out b c)
announce-Ended w out b c hp ho hs hf hn =
    let res = result_of w.now out b in
    let saved = tell (publish_settled res.players) (tell (save_result res) c) in
    let q = publish_end-roster out.winner (keys b.players) saved in
    (
      q.0 ∙ hp,
      q.1 ∙ ho,
      q.2 ∙ hs,
      (λ k. omega (
        arith,
        publish_end-finals k out.winner (keys b.players) saved,
        hf k,
        tally_all k (finals k saved.sent),
      )),
      λ n. omega (
        arith,
        said-publish_end n out.winner (keys b.players) saved,
        said_once n out (keys b.players),
        hn n,
      ),
    )

pub settle-Ended :
    (cfg : Config) (w : World) (out : Outcome) (b : Battle)
    → b.settled ≡ false
    → Ended out.winner b (settle cfg w out b)
unfolding settle cancel_seating
settle-Ended cfg w out b h = rw (h) (
    let closed = cancel_seating (record b { settled = true }) in
    let local = record_locally cfg out closed in
    let q =
      Quiet-trans closed local (record_shared_ended cfg out local)
        (record_locally-Quiet cfg out closed) (record_shared_ended-Quiet cfg out local) in
    announce-Ended w out b (record_shared_ended cfg out local) q.0 q.1 q.2 q.3 q.4)

pub settle_again :
    (cfg : Config) (w : World) (out : Outcome) (b : Battle)
    → b.settled ≡ true
    → settle cfg w out b ≡ b
unfolding settle
settle_again cfg w out b h = rw (h) refl

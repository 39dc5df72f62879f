-- ===== src/Battle/Roster/Names.antt =====
-- The names on a roster, kept by the handlers of services/battle/internal/actor.
use atlas_game_layout.Common.{
  String, true, false, not, List, [], ◌∷◌, ◌++◌, none, ◌≡◌, refl, sym, ◌∙◌, subst, arith, Unique,
  insert, delete, insert-Unique, delete-Unique, Option-cases, inl, inr, ◌==◌, string_key,
  if◌then◌else◌, if_elim, member, member-sort, string_order,
}
use atlas_game_layout.Battle.{
  take_seat, release_seat, Players, Battle, Config, World, has, keys, tell_each, publish_out,
  Outcome, settle,
}
use atlas_game_layout.Battle.Quiet.{
  publish_out-Quiet, settle-Ended, take_seat-Quiet, release_seat-Quiet,
}
use atlas_game_layout.Battle.Offline.{
  clear_offline, arm_offline, on_player_online, on_player_offline, on_offline_timeout, eliminate,
  last_standing, mark_away, time_out,
}
use atlas_game_layout.Battle.Tickets.{add_players, enlist, new_names, merged_roster}
use atlas_game_layout.Battle.LastStanding.{has-insert, has-delete, member-keys}
use atlas_game_layout.Battle.Roster.Steps.{IsNamed, clear_offline-marks, arm_offline-marks}

pub keeps-IsNamed : (b c : Battle) → c.players ≡ b.players → IsNamed b → IsNamed c
keeps-IsNamed b c e n = subst (λ ps. Unique ps × (has "" ps ≡ false)) (sym e) n

clear_offline-IsNamed : (p : String) (b : Battle) → IsNamed b → IsNamed (clear_offline p b)
clear_offline-IsNamed p b n = keeps-IsNamed b (clear_offline p b) (clear_offline-marks p b).0 n

pub on_player_online-IsNamed :
    (p : String) (b : Battle) → IsNamed b → IsNamed (on_player_online p b)
unfolding on_player_online
on_player_online-IsNamed p b n =
    let seated = take_seat p b in
    let m : IsNamed seated = keeps-IsNamed b seated (take_seat-Quiet p b).0 n in
    if_elim IsNamed (not (has p b.players)) {x = b}
      {y = if has p seated.offline then clear_offline p seated else seated} (λ t. n)
      λ f.
        if_elim IsNamed (has p seated.offline) {x = clear_offline p seated} {y = seated}
          (λ t. clear_offline-IsNamed p seated m) λ g. m

pub on_player_offline-IsNamed :
    (cfg : Config) (w : World) (p : String) (b : Battle)
    → IsNamed b
    → IsNamed (on_player_offline cfg w p b)
unfolding on_player_offline
on_player_offline-IsNamed cfg w p b n =
    let free = release_seat p b in
    let m : IsNamed free = keeps-IsNamed b free (release_seat-Quiet p b).0 n in
    let held : Battle = record free { offline = insert p none free.offline } in
    let armed = arm_offline cfg p free in
    let third = if free.migration then held else armed in
    let second = if w.online p then free else third in
    let first = if has p free.offline then free else second in
    if_elim IsNamed b.settled {x = b} {y = mark_away cfg w p b} (λ t. n)
      λ f.
        if_elim IsNamed (has p free.players) {x = first} {y = free}
          (λ t.
            if_elim IsNamed (has p free.offline) {x = free} {y = second} (λ t. m)
              λ f.
                if_elim IsNamed (w.online p) {x = free} {y = third} (λ t. m)
                  λ f.
                    if_elim IsNamed free.migration {x = held} {y = armed} (λ t. m)
                      λ f. keeps-IsNamed free armed (arm_offline-marks cfg p free).0 m)
          λ f. m

eliminate-IsNamed :
    (cfg : Config) (w : World) (p : String) (b : Battle)
    → b.settled ≡ false
    → IsNamed b
    → IsNamed (eliminate cfg w p b)
unfolding eliminate
eliminate-IsNamed cfg w p b hs n =
    let told = tell_each (λ q. publish_out q p) (keys b.players) b in
    let q = publish_out-Quiet p (keys b.players) b in
    elim (Option-cases (last_standing b.players p)) [
      | inl e ↦
          rw (e, eliminate)
            (let left : Battle = record told { players = delete p told.players } in
              let m : IsNamed told = keeps-IsNamed b told q.0 n in
              let l : IsNamed left = (
                delete-Unique p told.players m.0,
                ground (arith, has-delete p "" told.players, m.1),
              ) in
              clear_offline-IsNamed p left l)
      | inr f ↦
          rw (f.1, eliminate)
            (let out : Outcome = record { winner = f.0; frames = b.last_frame; scores = [] } in
              let clear = clear_offline p told in
              let m = clear_offline-marks p told in
              keeps-IsNamed b (settle cfg w out clear)
                ((settle-Ended cfg w out clear (m.1 ∙ q.2 ∙ hs)).0 ∙ m.0 ∙ q.0) n)
    ]

pub on_offline_timeout-IsNamed :
    (cfg : Config) (w : World) (p : String) (b : Battle)
    → IsNamed b
    → IsNamed (on_offline_timeout cfg w p b)
unfolding on_offline_timeout
on_offline_timeout-IsNamed cfg w p b n =
    let c = clear_offline p b in
    let out = eliminate cfg w p b in
    let third = if w.online p then c else out in
    let second = if has p b.players then third else c in
    let m = clear_offline-IsNamed p b n in
    if_elim IsNamed b.settled {x = b} {y = time_out cfg w p b} (λ t. n)
      λ hs.
        if_elim IsNamed (has p b.offline) {x = second} {y = b}
          (λ t.
            if_elim IsNamed (has p b.players) {x = third} {y = c}
              (λ t.
                if_elim IsNamed (w.online p) {x = c} {y = out} (λ t. m)
                  λ f. eliminate-IsNamed cfg w p b hs n)
              λ f. m)
          λ f. n

-- A roster that takes names grows.
pub add_players-has :
    (q : String) (ps : List String) (m : Players) → has q m ≡ true → has q (add_players ps m) ≡ true
unfolding add_players
add_players-has q [] m h = h
add_players-has q (p ∷ ps) m h =
    add_players-has q ps (if p == "" then m else insert p tt m)
      (ground (arith, h, has-insert p q tt m))

pub add_players-IsNamed :
    (ps : List String) (m : Players)
    → Unique m × (has "" m ≡ false)
    → Unique (add_players ps m) × (has "" (add_players ps m) ≡ false)
unfolding add_players
add_players-IsNamed [] m n = n
add_players-IsNamed (p ∷ ps) m n = add_players-IsNamed ps (if p == "" then m else insert p tt m) (
    if_elim (λ s. Unique s × (has "" s ≡ false)) (p == "") {x = m} {y = insert p tt m} (λ t. n)
      λ f. (insert-Unique p tt m n.0, ground (arith, has-insert p "" tt m, f, n.1)))

pub enlist-has :
    (q : String) (ps : List String) (m : Players)
    → has q (enlist ps m) ≡ (if has q m then true else member q ps)
unfolding enlist
enlist-has q [] m = ground (arith)
enlist-has q (p ∷ ps) m = ground (arith, enlist-has q ps (insert p tt m), has-insert p q tt m)

pub enlist-Unique : (ps : List String) (m : Players) → Unique m → Unique (enlist ps m)
unfolding enlist
enlist-Unique [] m u = u
enlist-Unique (p ∷ ps) m u = enlist-Unique ps (insert p tt m) (insert-Unique p tt m u)

pub member-append :
    (q : String) (xs ys : List String)
    → member q (xs ++ ys) ≡ (if member q xs then true else member q ys)
member-append q [] ys = refl
member-append q (x ∷ xs) ys = ground (arith, member-append q xs ys)

new_names-none : (seen ps : List String) → member "" (new_names seen ps) ≡ false
unfolding new_names
new_names-none seen [] = refl
new_names-none seen (p ∷ ps) = ground (arith, new_names-none seen ps, new_names-none (p ∷ seen) ps)

-- No merged roster holds the empty name.
pub merged_roster-none :
    (b : Battle) (ps : List String)
    → has "" b.players ≡ false
    → member "" (merged_roster b ps) ≡ false
unfolding merged_roster
merged_roster-none b ps h =
    let old = keys b.players in
    let new = new_names old ps in
    member-sort "" (old ++ new)
    ∙ ground (arith, member-append "" old new, member-keys "" b.players, h, new_names-none old ps)

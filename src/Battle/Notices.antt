-- ===== src/Battle/Notices.antt =====
-- Whom a settlement of services/battle/internal/actor names as the winner, and to whom.
use atlas_game_layout.Common.{
  ℕ, ◌+◌, String, ◌&&◌, List, [], ◌∷◌, none, ◌≡◌, refl, Unique, lookup, ◌==◌, string_key, str_iff,
  if◌then◌else◌, arith, times,
}
use atlas_game_layout.Battle.{
  Battle, Sent, save_result, publish_settled, publish_end, PlayerResult, Outcome, results, Players,
  has, keys, tell, tell_each,
}

-- That the saved result counts a player as the winner, that the settlement event does, and that the
-- end notice to the first player names the second one.
pub data Notice : Type 0 where
  winning : String → Notice
  settling : String → Notice
  telling : String → String → Notice

-- The player that a notice names as the winner, and the one on the roster that it is about.
abbrev pub named : Notice → String
named (winning q) = q
named (settling q) = q
named (telling p q) = q

abbrev pub about : Notice → String
about (winning q) = q
about (settling q) = q
about (telling p q) = p

abbrev pub wins_of : String → List PlayerResult → ℕ
wins_of q [] = 0
wins_of q (r ∷ rs) = let n = wins_of q rs in if (r.player_id == q) && r.win then 1 + n else n

abbrev pub in_result : Notice → List PlayerResult → ℕ
in_result (winning q) rs = wins_of q rs
in_result _ rs = 0

abbrev pub in_event : Notice → List PlayerResult → ℕ
in_event (settling q) rs = wins_of q rs
in_event _ rs = 0

abbrev pub in_end : Notice → String → String → ℕ
in_end (telling p q) to winner = if (to == p) && (winner == q) then 1 else 0
in_end _ to winner = 0

-- How often a notice was sent.
abbrev pub said : Notice → List Sent → ℕ
said n [] = 0
said n (s ∷ ss) = elim s [
  | save_result r ↦ in_result n r.players + said n ss
  | publish_settled ps ↦ in_event n ps + said n ss
  | publish_end p w ↦ in_end n p w + said n ss
  | _ ↦ said n ss
]

wins_of-results :
    (q : String) (out : Outcome) (ps : List String)
    → wins_of q (results out ps) ≡ (if out.winner == q then times q ps else 0)
unfolding results
wins_of-results q out [] = ground arith
wins_of-results q out (p ∷ ps) =
    ground
      (arith, str_iff p q, str_iff p out.winner, str_iff out.winner q, wins_of-results q out ps)

-- What the three loops over the roster say.
abbrev pub ended : Notice → String → List String → ℕ
ended n winner [] = 0
ended n winner (p ∷ ps) = in_end n p winner + ended n winner ps

pub said-publish_end :
    (n : Notice) (winner : String) (ps : List String) (b : Battle)
    → said n (tell_each (λ p. publish_end p winner) ps b).sent ≡ ended n winner ps + said n b.sent
said-publish_end n winner [] b = omega arith
said-publish_end n winner (p ∷ ps) b =
    omega (arith, said-publish_end n winner ps (tell (publish_end p winner) b))

ended-telling :
    (p q winner : String) (ps : List String)
    → ended (telling p q) winner ps ≡ (if winner == q then times p ps else 0)
ended-telling p q winner [] = ground arith
ended-telling p q winner (x ∷ ps) =
    ground (arith, str_iff x p, str_iff winner q, ended-telling p q winner ps)

ended-winning : (q winner : String) (ps : List String) → ended (winning q) winner ps ≡ 0
ended-winning q winner [] = refl
ended-winning q winner (x ∷ ps) = omega (arith, ended-winning q winner ps)

ended-settling : (q winner : String) (ps : List String) → ended (settling q) winner ps ≡ 0
ended-settling q winner [] = refl
ended-settling q winner (x ∷ ps) = omega (arith, ended-settling q winner ps)

-- Each of the three names the winner, the last one to every player.
pub said_once :
    (n : Notice) (out : Outcome) (ps : List String)
    → ended n out.winner ps + (in_event n (results out ps) + in_result n (results out ps))
      ≡ (if out.winner == named n then times (about n) ps else 0)
said_once (winning q) out ps =
    ground (arith, ended-winning q out.winner ps, wins_of-results q out ps)
said_once (settling q) out ps =
    ground (arith, ended-settling q out.winner ps, wins_of-results q out ps)
said_once (telling p q) out ps = ground (arith, ended-telling p q out.winner ps)

times-absent : (q : String) (m : Players) → lookup q m ≡ none → times q (keys m) ≡ 0
times-absent q [] h = refl
times-absent q ((p, v) ∷ m) h = ground (arith, str_iff p q, str_iff q p, times-absent q m)

pub times-keys :
    (q : String) (m : Players) → Unique m → times q (keys m) ≡ (if has q m then 1 else 0)
times-keys q [] u = refl
times-keys q ((p, v) ∷ m) u =
    ground (arith, str_iff p q, str_iff q p, times-keys q m u.1, times-absent q m)

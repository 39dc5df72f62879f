-- ===== src/Tests/Guards.antt =====
-- Streams of two battles under the owner guard.
use atlas_game_layout.Common.{
  ℕ, ◌+◌, String, List, [], ◌∷◌, ◌++◌, Option, none, some, ◌≡◌, refl, times, nat_key, string_key,
}
use atlas_game_layout.Guard.{BattleWatch, Guard, register, started, unregister, watches, close}
use atlas_game_layout.Guard.Watches.{Act, joins, leaves, closes, run, run-watches}

abbrev streams : BattleWatch ℕ
streams = record { cancel = some 9; subs = (1, "node-a") ∷ (2, "node-b") ∷ [] }

abbrev guard : Guard ℕ
guard = ("b1", streams) ∷ []

abbrev subs_of : Option (BattleWatch ℕ) → List (ℕ × String)
subs_of none = []
subs_of (some bw) = bw.subs

abbrev acts : List (Act ℕ)
acts =
    joins "b1" 1 "node-a" (some 7)
    ∷ joins "b1" 2 "node-a" none
    ∷ leaves "b1" 1
    ∷ leaves "b1" 2
    ∷ joins "b2" 3 "node-a" (some 8)
    ∷ closes
    ∷ []

run-watches_example :
    let (g, opened, stopped) = run [] acts in
    (times 8 opened ≡ times 8 stopped + times 8 (watches g))
    × (times 8 opened ≡ times 8 stopped + times 8 (close g).1)
    × ((close g).0 ≡ [])
run-watches_example = run-watches 8 acts

-- Two registrations of one battle that overlap: while the first opens watch 1, its stream ends and
-- a second one comes, which opens watch 2.
abbrev overlap : Guard ℕ × List ℕ × List ℕ
overlap =
    let g1 = (register [] "b1" 1 "node-a").0 in
    let (g2, s2) = unregister g1 "b1" 1 in
    let g3 = (register g2 "b1" 2 "node-a").0 in
    let (g4, s4) = started g3 "b1" 1 in
    let (g5, s5) = started g4 "b1" 2 in (g5, s2 ++ (s4 ++ s5), watches g5)

-- Watch 1 is not cancelled and no longer held.
overlap_loses : (overlap.1 ≡ []) × (overlap.2 ≡ 2 ∷ [])
unfolding register unregister started
overlap_loses = (refl, refl)

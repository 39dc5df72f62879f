-- ===== src/Tests/Gates.antt =====
-- A gate and a battle that ends.
use atlas_game_layout.Common.{◌≤◌, List, [], ◌∷◌, ◌≡◌, refl, string_key, str_iff, length, arith}
use atlas_game_layout.Common.Int.{pos}
use atlas_game_layout.Gate.{
  Call, missing, ended, allowed, refused, allow_activation, judge, miss_cached, cache_miss, run,
  new_gate, negative_cache_ttl, negative_cache_max_entries,
}
use atlas_game_layout.Gate.Refusals.{run-refused}

-- A gate that has just learnt that a battle is not known.
abbrev asked_early : List Call
asked_early =
    record { now = 10; later = 12; pid_type = "battle"; uid = "b1"; answer = missing } ∷ []

-- Inside the time to believe a miss the battle is started again.
believed :
    (allow_activation 20 21 "battle" "b1"
      (ended "ann")
      (run asked_early (new_gate "battle" (pos 1000)))).1
    ≡ allowed
unfolding run new_gate negative_cache_ttl allow_activation judge miss_cached cache_miss
believed = refl

run-refused_example :
    ((allow_activation 200000012 200000013 "battle" "b1"
        (ended "ann")
        (run asked_early (new_gate "battle" (pos 1000)))).1
      ≡ refused "ann")
    × (length (run asked_early (new_gate "battle" (pos 1000))).miss_until
        ≤ negative_cache_max_entries)
run-refused_example =
    run-refused "battle" (pos 1000) 12 asked_early 200000012 200000013 "b1" "ann"
      (λ e. absurd (ground (arith, str_iff "battle" "", e))) (omega arith, tt) (omega arith)

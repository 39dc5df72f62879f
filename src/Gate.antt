-- ===== src/Gate.antt =====
-- The gate that refuses to start a battle that has ended, services/battle/internal/ledger/gate.go
-- and gate_cache.go. The shared ledger is a parameter: what it answers to a call. Times are
-- nanoseconds; the clock is read twice in a call.
pub mod Refusals
use atlas_game_layout.Common.{
  ℕ, ◌+◌, ◌*◌, String, Bool, true, false, not, ◌||◌, List, [], ◌∷◌, Option, none, some, Map, lookup,
  insert, delete, filter_map, length, ◌==◌, string_key, nat_key, ltb, leb, if◌then◌else◌,
}
use atlas_game_layout.Common.Int.{ℤ, pos, pos_part, ltb_ℤ}

-- 200 milliseconds, `DefaultNegativeCacheTTL` and `MaxNegativeCacheTTL`.
abbrev pub max_negative_cache_ttl : ℕ
max_negative_cache_ttl = 200 * 1000000

abbrev pub negative_cache_max_entries : ℕ
negative_cache_max_entries = 4096

-- `WithNegativeCacheTTL`.
unfoldable pub negative_cache_ttl : ℤ → ℕ
negative_cache_ttl d =
    if not (ltb_ℤ (pos 0) d)
    then 0
    else if ltb max_negative_cache_ttl (pos_part d)
    then max_negative_cache_ttl
    else pos_part d

-- The battles that the ledger did not know, with the time until which that is believed.
pub record Gate : Type 0 where
  pub actor_type : String
  pub neg_ttl : ℕ
  pub miss_until : Map String ℕ

-- `NewGate`, with the option.
unfoldable pub new_gate : String → ℤ → Gate
unfolding negative_cache_ttl
new_gate actor_type d = record {
  actor_type = actor_type;
  neg_ttl = negative_cache_ttl d;
  miss_until = [];
}

abbrev is_off : String → Gate → Bool
is_off uid g = (g.neg_ttl == 0) || (uid == "")

-- The end of `missCached`, from the entry that is found.
abbrev pub cached_entry : ℕ → String → Gate → Option ℕ → Gate × Bool
cached_entry now uid g none = (g, false)
cached_entry now uid g (some until) =
    if ltb now until then (g, true) else (record g { miss_until = delete uid g.miss_until }, false)

-- `missCached`.
unfoldable pub miss_cached : ℕ → String → Gate → Gate × Bool
miss_cached now uid g =
    if is_off uid g then (g, false) else cached_entry now uid g (lookup uid g.miss_until)

-- `pruneLocked`.
unfoldable pub prune_locked : ℕ → Gate → Gate
prune_locked now g = record g { miss_until = filter_map (λ uid until. ltb now until) g.miss_until }

-- The last statement of `cacheMiss`.
abbrev pub remember : ℕ → String → Gate → Gate
remember now uid g = record g { miss_until = insert uid (now + g.neg_ttl) g.miss_until }

abbrev pub is_full : Gate → Bool
is_full g = leb negative_cache_max_entries (length g.miss_until)

-- `cacheMiss`.
unfoldable pub cache_miss : ℕ → String → Gate → Gate
unfolding prune_locked
cache_miss now uid g =
    if is_off uid g
    then g
    else if is_full g
    then if is_full (prune_locked now g)
      then prune_locked now g
      else remember now uid (prune_locked now g)
    else remember now uid g

-- The answer of the ledger: an error, nothing, or the winner of the battle.
pub data Answer : Type 0 where
  failed missing : Answer
  ended : String → Answer

pub data Verdict : Type 0 where
  allowed : Verdict
  refused : String → Verdict

-- The end of `AllowActivation`, after the ledger was asked.
unfoldable pub judge : ℕ → String → Gate → Answer → Gate × Verdict
unfolding cache_miss
judge later uid g failed = (g, allowed)
judge later uid g missing = (cache_miss later uid g, allowed)
judge later uid g (ended winner) = (g, refused winner)

-- `AllowActivation`; the gate and its store are there.
unfoldable pub allow_activation : ℕ → ℕ → String → String → Answer → Gate → Gate × Verdict
allow_activation now later pid_type uid answer g =
    if (g.actor_type == "") || not (pid_type == g.actor_type)
    then (g, allowed)
    else let (cached, hit) = miss_cached now uid g in
      if hit then (cached, allowed) else judge later uid cached answer

pub record Call : Type 0 where
  pub now : ℕ
  pub later : ℕ
  pub pid_type : String
  pub uid : String
  pub answer : Answer

unfoldable pub run : List Call → Gate → Gate
unfolding allow_activation
run [] g = g
run (c ∷ cs) g = run cs (allow_activation c.now c.later c.pid_type c.uid c.answer g).0

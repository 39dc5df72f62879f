-- ===== src/Battle/Timers.antt =====
-- The timers of the marks, battle_offline.go of services/battle/internal/actor: which of them may be
-- pending.
pub mod Marks
pub mod Runs
pub mod Window
use atlas_game_layout.Common.{
  ℕ, ◌<◌, String, Bool, true, false, Option, none, some, ◌≡◌, lookup, nat_key, string_key,
}
use atlas_game_layout.Battle.{Battle, Event, offline_timeout}

-- A pending timer is the one that its player's mark names, handles are not given twice, and no mark
-- has a timer inside the migration window.
pub record IsTimed (b : Battle) : Type 0 where
  pub owned :
      (n : ℕ) (p : String)
      → lookup n b.timers ≡ some (offline_timeout p)
      → lookup p b.offline ≡ some (some n)
  pub fresh : (n : ℕ) (e : Event) → lookup n b.timers ≡ some e → n < b.next_timer
  pub held : b.migration ≡ true → (p : String) (n : ℕ) → lookup p b.offline ≡ some (some n) → ⊥

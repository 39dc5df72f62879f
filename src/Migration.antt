-- ===== src/Migration.antt =====
-- The orchestrator of a battle's migration, services/battle/internal/migrate: which node takes it
-- over (plan.go), and the steps that move it (migrate.go and quarantine.go). Least: the node that
-- is picked. Flow: the calls of a migration. Handover: with the actor of the battle.
mod Picker
mod Moves
pub mod Least
pub mod Flow
pub mod Handover
unfoldable pub use Picker.*
unfoldable pub use Moves.*

-- ===== src/Registry.antt =====
-- The direct connections of a battle node, services/battle/internal/stream: registry.go, conn.go
-- and the registry's part of delta.go.
pub mod State
pub mod Conns
pub mod Plan
pub mod Publish

-- ===== src/Matching.antt =====
-- The match functions, services/matcher/internal/biz/matchfunc.
pub mod FlexTeams
pub mod LevelClose

-- ===== src/Placement.antt =====
-- The placement of matches on the battle nodes, services/matcher/internal/placement: which nodes may
-- run a battle (Candidates), and whose turn it is (Plans). Wait: the wait for the nodes after a
-- start; Turns: each node gets its share; Choice: the candidates; Targets: the
-- node of a match, and another one for a retry.
mod Candidates
mod Plans
pub mod Wait
pub mod Turns
pub mod Choice
pub mod Faces
pub mod Targets
unfoldable pub use Candidates.*
unfoldable pub use Plans.*

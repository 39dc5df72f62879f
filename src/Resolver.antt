-- ===== src/Resolver.antt =====
-- The resolver of the edge, services/edge/internal/resolver/watchcache.go: the owners of the battles
-- and the frame instances, cached as long as a watch keeps them fresh. Each section under the lock
-- is one function; what it reads of the clock is an argument, in nanoseconds, 0 for the zero time.
-- The directory and the registry are parameters: a watch that was opened is a number, and what is
-- cancelled is listed, as are the callbacks that `notify` makes. The ticker of the sweep is left
-- out, as are the log lines.
mod Instances
mod State
mod OwnerCache
mod FrameCache
mod Runs
pub mod Watches
pub mod Closed
pub mod Known
pub mod Facts
mod Resolve
pub mod Backends
pub mod Picks
unfoldable pub use Instances.*
unfoldable pub use State.*
unfoldable pub use OwnerCache.*
unfoldable pub use FrameCache.*
unfoldable pub use Runs.*
unfoldable pub use Resolve.*

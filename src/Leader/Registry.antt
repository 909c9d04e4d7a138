-- ===== src/Leader/Registry.antt =====
-- packages/storage/src/leader.ts: the leader's bridges, keyed by client id, over one writer. The
-- bridges share the counter of envelope ids.
mod Tests
mod Defs
pub mod Ids
pub mod Waiting
pub mod Routing
pub mod Closing
unfoldable pub use Defs.*

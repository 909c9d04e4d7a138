-- ===== src/Leader/System.antt =====
-- packages/storage/src/leader.ts: the tabs of one origin over the browser's lock manager.
mod Tests
mod Defs
pub mod Placing
pub mod Safety
unfoldable pub use Defs.*

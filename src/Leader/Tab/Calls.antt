-- ===== src/Leader/Tab/Calls.antt =====
-- packages/storage/src/leader.ts, `createLeaderTransport`: the calls to `navigator.locks`.
mod Defs
pub mod Messages
pub mod Locking
pub use Defs.*

-- ===== src/Leader/Tab.antt =====
-- packages/storage/src/leader.ts, `createLeaderTransport`: the transport of one tab.
mod Tests
mod State
mod Pairing
mod Leading
mod Events
pub mod Invariant
pub mod Failure
pub mod Budget
pub mod Replay
pub mod Keeping
pub mod Stale
pub mod Lasting
pub mod Runs
pub mod Calls
unfoldable pub use State.*
unfoldable pub use Pairing.*
unfoldable pub use Leading.*
unfoldable pub use Events.*

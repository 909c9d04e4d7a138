-- ===== src/Rpc/Client.antt =====
-- packages/storage/src/rpc.ts, class WorkerClient: the page's handle of the storage worker. A method
-- returns the new state and what it did, in order: messages posted, promises settled, the transport
-- closed. A promise is named by its request's id.
mod Defs
pub mod Counting
pub mod Settling
pub mod Guards
unfoldable pub use Defs.*

-- ===== src/Rpc.antt =====
-- packages/storage/src/rpc.ts: the request/response protocol between a page and the writer.
pub mod Protocol
pub mod Client
mod Tests

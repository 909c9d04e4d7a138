-- ===== src/Share.antt =====
-- packages/share-client: handing one note to another device over a rendezvous server.
pub mod Errors
pub mod Blob
pub mod Code
pub mod Mint
pub mod Transport
pub mod Receive
pub mod Send
pub mod Exchange
mod Tests

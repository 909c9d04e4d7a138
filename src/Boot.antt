-- ===== src/Boot.antt =====
-- packages/storage/src/index.ts: over which transport a page reaches the database.
pub mod Defs
pub mod Ladder
mod Tests

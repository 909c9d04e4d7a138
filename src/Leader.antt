-- ===== src/Leader.antt =====
-- packages/storage/src/leader.ts: one tab owns the writer, the others reach it through pair channels.
pub mod Wire
pub mod Bridge
pub mod Registry
pub mod Tab
pub mod System

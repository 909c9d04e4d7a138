-- ===== src/Opening.antt =====
-- apps/web/src/notes/use-notes-repo.ts: opening and closing repositories as vaults come and go.
pub mod Defs
mod Closing
mod Tests

-- ===== src/Migrations.antt =====
-- packages/storage/src/migrations.ts: the runner of schema migrations.
pub mod Defs
pub mod Atomic
mod Tests

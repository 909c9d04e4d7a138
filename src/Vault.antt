-- ===== src/Vault.antt =====
-- apps/web/src/app/idle-lock-coordinator.ts: the lock of an idle vault, across tabs.
mod Defs
pub mod Once
pub mod Idle
mod Tests
unfoldable pub use Defs.*

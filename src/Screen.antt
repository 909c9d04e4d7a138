-- ===== src/Screen.antt =====
-- apps/web/src/app/auth-screen.tsx: which screen is shown, and who holds the vault.
pub mod Handles
pub mod Stored
mod Defs
mod Tests
unfoldable pub use Defs.*

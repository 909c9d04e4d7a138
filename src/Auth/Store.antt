-- ===== src/Auth/Store.antt =====
-- packages/auth/src/credential-store.ts: the file of the vault credential.
pub mod Atomic
mod Defs
unfoldable pub use Defs.*

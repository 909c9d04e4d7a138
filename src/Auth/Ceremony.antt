-- ===== src/Auth/Ceremony.antt =====
-- packages/auth/src/ceremony.ts: enrolment and unlocking with a passkey.
pub mod Enrolment
mod Defs
unfoldable pub use Defs.*

-- ===== src/Auth.antt =====
-- packages/auth: the passkey ceremonies, the stored credential and its text codec.
pub mod Codec
pub mod Store
pub mod Ceremony
mod Disk
mod Tests

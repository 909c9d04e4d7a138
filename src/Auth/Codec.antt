-- ===== src/Auth/Codec.antt =====
-- packages/auth/src/codec.ts: bytes as base64 with the URL's alphabet and no padding.
pub mod Groups
pub mod RoundTrip
mod Defs
unfoldable pub use Defs.*

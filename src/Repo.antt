-- ===== src/Repo.antt =====
-- packages/storage/src/repo.ts, row-codec.ts: the page's side of the repository, which alone sees plain text.
pub mod Defs
pub mod Sealing
mod Listing
mod Tests

-- ===== src/Markdown.antt =====
-- apps/web/src/notes/markdown.tsx: links, and the plain text of notes.
pub mod Defs
mod Recency
mod Links
mod Words
mod Blocks
mod Pairs
mod Cached
mod Tests

-- ===== src/Editor.antt =====
-- apps/web/src/notes: the editor of a note, and the view of the notes around it.
pub mod Defs
mod Guard
mod Search
mod Shell
mod Drafts
mod Tests

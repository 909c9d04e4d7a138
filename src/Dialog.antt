-- ===== src/Dialog.antt =====
-- apps/web/src/share: the dialogs that send and receive a note, and the codec of a shared note.
pub mod Defs
mod Receive
mod Exchange
mod Submit
mod Tests

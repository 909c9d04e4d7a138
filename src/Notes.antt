-- ===== src/Notes.antt =====
-- packages/storage: the rows of the database, from the worker's requests to their pages.
pub mod Cursor
pub mod Order
pub mod Table
pub mod Writing
pub mod Sorting
pub mod Paging
pub mod Loading
pub mod Displayed
pub mod Store
pub mod Latest
pub mod Worker
mod Handles
mod Tests

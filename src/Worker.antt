-- ===== src/Worker.antt =====
-- apps/web/public/sw.js: the service worker, its caches and the requests of the page.
pub mod Caching
pub mod Others
pub mod Offline
mod Defs
mod Tests
unfoldable pub use Defs.*

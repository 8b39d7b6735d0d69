-- ===== src/Shortener/Service.antt =====
-- The use cases of `LinkService` (url-shortener/src/application/mod.rs).
mod Defs
mod Code
pub mod OverStore
pub mod Blocklist
unfoldable pub use Defs.*
unfoldable pub use Code.*

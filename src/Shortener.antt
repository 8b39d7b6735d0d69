-- ===== src/Shortener.antt =====
-- The URL shortener (url-shortener/src), module by module.
pub mod Domain
pub mod Memory
pub mod Contract
pub mod Sqlite
pub mod Hits
pub mod Service
pub mod System
mod Tests
mod StoreTests

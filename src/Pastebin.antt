-- ===== src/Pastebin.antt =====
-- The pastebin (pastebin-service/src), module by module.
pub mod Domain
pub mod Memory
pub mod Contract
pub mod Sqlite
pub mod Views
pub mod Service
pub mod System
mod Tests
mod StoreTests

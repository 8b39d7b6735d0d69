-- ===== src/Tcp.antt =====
-- The TCP server with its connection registry (tcp-actor-server/src).
pub mod Strings
pub mod Http
pub mod Registry
pub mod Metrics
pub mod Server
mod Tests
mod ParserTests

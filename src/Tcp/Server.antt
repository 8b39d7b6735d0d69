-- ===== src/Tcp/Server.antt =====
-- The accept loop and the connections (tcp-actor-server/src/server.rs).
pub mod Accept
pub mod Live
pub mod Tasks
pub mod Turns
pub mod Runs
pub mod Connection

-- ===== src/Pastebin/Domain.antt =====
-- Entities, validation and the repository port (pastebin-service/src/domain/mod.rs).
pub mod Errors
pub mod PasteId
pub mod Content
pub mod Paste

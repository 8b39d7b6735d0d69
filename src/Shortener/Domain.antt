-- ===== src/Shortener/Domain.antt =====
-- Entities, validation and the repository port (url-shortener/src/domain/mod.rs).
pub mod Errors
pub mod ShortCode
pub mod TargetUrl
pub mod Link

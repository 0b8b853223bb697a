-- ===== src/Api.antt =====
-- The REST API (api/mod.rs and the modules below it).
pub mod Extractors
pub mod Register
pub mod Auth
pub mod Exchange
pub mod Relationships
pub mod Admin
pub mod Router
pub mod Http
pub mod Keeps
pub mod Sessions

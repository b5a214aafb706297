-- ===== src/Server.antt =====
-- internal/server
pub mod Generation
pub mod Response
pub mod Handler
pub mod Shutdown
pub mod Health

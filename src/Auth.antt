-- ===== src/Auth.antt =====
-- internal/authentications: who may see what.
pub mod Jwt
pub mod Custom
pub mod StaticKey

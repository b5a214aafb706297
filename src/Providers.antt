-- ===== src/Providers.antt =====
-- internal/providers: the providers that decide between others.
pub mod Fallback
pub mod Placeholders
pub mod Client
pub mod Ref
pub mod Blend
pub mod Proxy

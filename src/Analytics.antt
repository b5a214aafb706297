-- ===== src/Analytics.antt =====
-- pkg/entities/analytics
pub mod Batch
pub mod Fields

-- ===== src/Layer.antt =====
-- pkg/entities/layer
pub mod Pattern
pub mod Refs
pub mod MetricName
pub mod Provide
pub mod Group

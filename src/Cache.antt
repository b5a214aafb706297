-- ===== src/Cache.antt =====
-- internal/caches: the cache of several tiers, and the keys that the others derive from a layer's name.
pub mod Multi
pub mod Keys
pub mod Names
pub mod Tests

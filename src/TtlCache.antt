-- ===== src/TtlCache.antt =====
-- backend/enterprise_platform/ttl_cache.py: a value that many threads share for a short time.
pub mod Box
pub mod System
pub mod Invariant
pub mod Leaders
pub mod SingleFlight
mod Tests

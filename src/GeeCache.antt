-- ===== src/GeeCache.antt =====
-- geeCache: the distributed cache.
pub mod Lru
pub mod ConsistentHash
pub mod SingleFlight
pub mod Group
pub mod HttpPool
pub mod Api
mod Tests

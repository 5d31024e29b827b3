-- ===== src/Cache.antt =====
-- pkg/cache: bounded caches.
pub mod Lru
pub mod Lfu

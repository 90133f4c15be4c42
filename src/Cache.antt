-- ===== src/Cache.antt =====
-- The disk cache of the cache proxy: cmd/cache-proxy/cache.go.
pub mod Disk
pub mod Counted
pub mod Steps
pub mod Puts
pub mod Again
pub mod Examples

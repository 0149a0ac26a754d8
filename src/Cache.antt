-- ===== src/Cache.antt =====
-- pkg/cache: the map of file sizes, the items on disk, and the cache of file blocks.
pub mod SyncMap
pub mod Item
pub mod FileCache
pub mod Threads

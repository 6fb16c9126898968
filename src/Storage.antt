-- ===== src/Storage.antt =====
-- Memory: include/storage.
pub mod PoolAllocator

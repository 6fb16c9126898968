-- ===== src/Concurrency.antt =====
-- The primitives of concurrency: include/concurrency and src/concurrency.
pub mod RwLock
pub mod LockFreeQueue
pub mod ThreadPool

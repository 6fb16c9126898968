-- ===== src/Structures.antt =====
-- The data structures of the storage layer.
pub mod SortedMap
pub mod BTree
pub mod HashMap
pub mod LruCache

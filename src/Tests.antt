-- ===== src/Tests.antt =====
-- The tests: the theorems at concrete inputs.
mod Core
mod Stores
mod Table
mod Executor
mod Query
mod Structures
mod Concurrency
mod Storage
mod Database
mod HashMap
mod Caches
mod Network

-- ===== src/Core.antt =====
-- The data model of the engine: typed values, schemas, rows, tables and the database.
pub mod Int64
pub mod Schema
pub mod Row
pub mod Stores
pub mod Table
pub mod Database
pub mod Engine

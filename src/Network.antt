-- ===== src/Network.antt =====
-- The server: the queries of a connection.
pub mod Strand

-- ===== src/Oodcp/Versions.antt =====
-- What the queries on versions answer, and how versions are numbered.
pub mod Queries
pub mod Numbering

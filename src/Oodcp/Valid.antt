-- ===== src/Oodcp/Valid.antt =====
-- The constraints of the schema hold after every operation.
pub mod Saves
pub mod Readable
pub mod Runs

-- ===== src/Parsing.antt =====
-- dvc/parsing: the data that templates are resolved with.
mod Examples
pub mod Context
pub mod Groups

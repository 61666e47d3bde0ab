-- ===== src/Experiments.antt =====
-- dvc/repo/experiments.
mod Examples
pub mod Refs

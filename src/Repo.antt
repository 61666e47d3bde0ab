-- ===== src/Repo.antt =====
-- dvc/repo: the reproduction of a pipeline.
mod Examples
pub mod Reproduce
pub mod Stages

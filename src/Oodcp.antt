-- ===== src/Oodcp.antt =====
-- The `dvc oodcp` subsystem (dvc/oodcp): entities, the SQLite repository and the services.
mod Examples
pub mod Values
pub mod Entities
pub mod Tables
pub mod DatasetDal
pub mod DatafileDal
pub mod DataversionDal
pub mod Convert
pub mod DataRepo
pub mod Dataset
pub mod Datafile
pub mod Dataversion
pub mod Factories
pub mod Services
pub mod Pipeline
pub mod Valid
pub mod Trace
pub mod Lookup
pub mod Versions
pub mod Deletion
pub mod Lineage

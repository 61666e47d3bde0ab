-- ===== src/Oodcp/Values.antt =====
-- dvc/oodcp/domain/enums.py and exceptions.py. An enum's `value` is the text that the database
-- holds, and a call of the enum's class reads the text back.
use dvc.Base.{ℕ, String, ◌≡◌, refl, Option, none, some, ◌==◌, string_eq, if◌then◌else◌}

pub data EntityStatus : Type 0 where
  active deleted : EntityStatus

pub data VersionStatus : Type 0 where
  draft committed deleted : VersionStatus

pub data StorageType : Type 0 where
  s3 gcs azure local : StorageType

unfoldable pub entity_status_value : EntityStatus → String
entity_status_value EntityStatus.active = "ACTIVE"
entity_status_value EntityStatus.deleted = "DELETED"

unfoldable pub entity_status : String → Option EntityStatus
entity_status s =
    if s == "ACTIVE"
    then some EntityStatus.active
    else if s == "DELETED"
    then some EntityStatus.deleted
    else none

unfoldable pub version_status_value : VersionStatus → String
version_status_value VersionStatus.draft = "DRAFT"
version_status_value VersionStatus.committed = "COMMITTED"
version_status_value VersionStatus.deleted = "DELETED"

unfoldable pub version_status : String → Option VersionStatus
version_status s =
    if s == "DRAFT"
    then some VersionStatus.draft
    else if s == "COMMITTED"
    then some VersionStatus.committed
    else if s == "DELETED"
    then some VersionStatus.deleted
    else none

unfoldable pub storage_type_value : StorageType → String
storage_type_value s3 = "S3"
storage_type_value gcs = "GCS"
storage_type_value azure = "AZURE"
storage_type_value local = "LOCAL"

unfoldable pub storage_type_of : String → Option StorageType
storage_type_of s =
    if s == "S3"
    then some s3
    else if s == "GCS"
    then some gcs
    else if s == "AZURE"
    then some azure
    else if s == "LOCAL"
    then some local
    else none

-- What an error message names: an identifier, a version number, the latest version of a file, or
-- None.
pub data Identifier : Type 0 where
  text : String → Identifier
  number : ℕ → Identifier
  latest_for : String → Identifier
  nothing : Identifier

-- The exceptions that leave the subsystem. The first two are sqlite3.IntegrityError, by the
-- constraint that failed; `attribute_error` is the use of a gateway that is None.
pub data Error : Type 0 where
  unique_violation foreign_key_violation : Error
  duplicate_name : String → String → Error
  not_found : String → Identifier → Error
  value_error attribute_error : Error
  storage_error data_not_found : Error

-- Reading back the text of a member gives the member.
pub entity_status-value : (s : EntityStatus) → entity_status (entity_status_value s) ≡ some s
unfolding entity_status entity_status_value string_eq
entity_status-value EntityStatus.active = refl
entity_status-value EntityStatus.deleted = refl

pub version_status-value : (s : VersionStatus) → version_status (version_status_value s) ≡ some s
unfolding version_status version_status_value string_eq
version_status-value VersionStatus.draft = refl
version_status-value VersionStatus.committed = refl
version_status-value VersionStatus.deleted = refl

pub storage_type_of-value : (s : StorageType) → storage_type_of (storage_type_value s) ≡ some s
unfolding storage_type_of storage_type_value string_eq
storage_type_of-value s3 = refl
storage_type_of-value gcs = refl
storage_type_of-value azure = refl
storage_type_of-value local = refl

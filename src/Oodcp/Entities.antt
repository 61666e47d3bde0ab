-- ===== src/Oodcp/Entities.antt =====
-- The entity classes of dvc/oodcp/domain/entities and the two kinds of values that the program
-- takes from elsewhere: dates and JSON dicts with their text, and a storage gateway.
use dvc.Base.{ℕ, String, ◌≡◌, Bool, Option, some, Result}
use dvc.Oodcp.Values.{EntityStatus, VersionStatus, StorageType, s3, gcs, azure, local, Error}

-- datetime with isoformat and fromisoformat, and the dicts with json.dumps and json.loads. The
-- readers raise ValueError on other text.
pub record Codec : Type 1 where
  pub Datetime : Type 0
  pub isoformat : Datetime → String
  pub fromisoformat : String → Option Datetime
  pub Dict : Type 0
  pub dumps : Dict → String
  pub loads : String → Option Dict

-- The readers read what the writers wrote.
pub record IsFaithful (c : Codec) : Type 0 where
  pub fromisoformat-isoformat : (t : c.Datetime) → c.fromisoformat (c.isoformat t) ≡ some t
  pub loads-dumps : (d : c.Dict) → c.loads (c.dumps d) ≡ some d

-- infrastructure/gateways/storage_gateway.py; the answers are the outside world's.
pub record StorageGateway : Type 0 where
  pub push : (source_path storage_uri : String) → Result Error (String × String)
  pub pull : (dvc_hash hash_algorithm dest_path : String) → Result Error String
  pub verify : (dvc_hash hash_algorithm : String) → Result Error Bool

pub record DataSet (c : Codec) : Type 0 where
  pub uuid : String
  pub name : String
  pub description : String
  pub project : String
  pub owner : String
  pub status : EntityStatus
  pub created_at : c.Datetime
  pub updated_at : c.Datetime
  pub shared_metadata : c.Dict

pub record DataFile (c : Codec) : Type 0 where
  pub uuid : String
  pub dataset_uuid : String
  pub name : String
  pub description : String
  pub owner : String
  pub status : EntityStatus
  pub created_at : c.Datetime
  pub updated_at : c.Datetime

-- The subclasses of DataVersion add nothing but their storage type.
pub data VersionClass : Type 0 where
  s3_data_version gcs_data_version azure_data_version local_data_version : VersionClass

unfoldable pub storage_type : VersionClass → StorageType
storage_type s3_data_version = s3
storage_type gcs_data_version = gcs
storage_type azure_data_version = azure
storage_type local_data_version = local

pub record DataVersion (c : Codec) : Type 0 where
  pub class : VersionClass
  pub uuid : String
  pub datafile_uuid : String
  pub version_number : ℕ
  pub dvc_hash : String
  pub hash_algorithm : String
  pub storage_uri : String
  pub status : VersionStatus
  pub source_version_uuid : Option String
  pub transformer : String
  pub metadata : c.Dict
  pub created_at : c.Datetime
  pub updated_at : c.Datetime
  pub storage_gateway : Option StorageGateway

-- What the default factories give to a new entity: uuid4() and two calls of now().
pub record Defaults (c : Codec) : Type 0 where
  pub uuid : String
  pub created_at : c.Datetime
  pub updated_at : c.Datetime

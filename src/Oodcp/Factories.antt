-- ===== src/Oodcp/Factories.antt =====
-- The factories of dvc/oodcp/app/factory.
pub mod Laws
use dvc.Base.{ℕ, String, Option, none, some, ◌==◌, string_eq, Result, return, raise, if◌then◌else◌}
use dvc.Oodcp.Values.{EntityStatus, VersionStatus, StorageType, Error, value_error}
use dvc.Oodcp.Entities.{Codec, StorageGateway, DataSet, DataFile, DataVersion, Defaults}
use dvc.Oodcp.Convert.{version_cls}
use dvc.Oodcp.Dataversion.{savedata}

module _ (c : Codec) where
  unfoldable pub create_dataset :
      (name description project owner : String) → c.Dict → Defaults c → DataSet c
  create_dataset name description project owner shared_metadata new = record {
    uuid = new.uuid;
    name = name;
    description = description;
    project = project;
    owner = owner;
    status = EntityStatus.active;
    created_at = new.created_at;
    updated_at = new.updated_at;
    shared_metadata = shared_metadata;
  }

  unfoldable pub create_datafile :
      (dataset_uuid name description owner : String) → Defaults c → DataFile c
  create_datafile dataset_uuid name description owner new = record {
    uuid = new.uuid;
    dataset_uuid = dataset_uuid;
    name = name;
    description = description;
    owner = owner;
    status = EntityStatus.active;
    created_at = new.created_at;
    updated_at = new.updated_at;
  }

-- The arguments of `DataVersionFactory.create`.
pub record CreateArgs (c : Codec) : Type 0 where
  pub datafile_uuid : String
  pub version_number : ℕ
  pub storage_type : StorageType
  pub storage_uri : String
  pub source_path : Option String
  pub dvc_hash : Option String
  pub hash_algorithm : String
  pub source_version_uuid : Option String
  pub transformer : String
  pub metadata : c.Dict

module _ (c : Codec) where
  -- The object of the class that `_REGISTRY` has for the storage type.
  abbrev pub registered : StorageGateway → CreateArgs c → Defaults c → DataVersion c
  registered gateway args new = record {
    class = version_cls args.storage_type;
    uuid = new.uuid;
    datafile_uuid = args.datafile_uuid;
    version_number = args.version_number;
    dvc_hash = elim args.dvc_hash [ none ↦ "" | some h ↦ h ];
    hash_algorithm = args.hash_algorithm;
    storage_uri = args.storage_uri;
    status = VersionStatus.draft;
    source_version_uuid = args.source_version_uuid;
    transformer = args.transformer;
    metadata = args.metadata;
    created_at = new.created_at;
    updated_at = new.updated_at;
    storage_gateway = some gateway;
  }

  -- `elif source_path is not None: version.savedata(source_path)`
  unfoldable pub push_unhashed :
      DataVersion c → Option String → c.Datetime → Result Error (DataVersion c)
  unfolding savedata
  push_unhashed v none now = return v
  push_unhashed v (some path) now = savedata c v path now

  -- `if dvc_hash: version.status = COMMITTED`
  unfoldable pub commit_or_push :
      DataVersion c
      → (source_path dvc_hash : Option String) → c.Datetime
      → Result Error (DataVersion c)
  unfolding push_unhashed
  commit_or_push v source_path none now = push_unhashed v source_path now
  commit_or_push v source_path (some h) now =
      if h == ""
      then push_unhashed v source_path now
      else return (record v { status = VersionStatus.committed })

  unfoldable pub create_dataversion :
      StorageGateway → CreateArgs c → Defaults c → c.Datetime → Result Error (DataVersion c)
  unfolding commit_or_push
  create_dataversion gateway args new now = elim args.source_path [
    | none ↦ elim args.dvc_hash [
      | none ↦ raise value_error
      | some h ↦ commit_or_push (registered gateway args new) none (some h) now
    ]
    | some path ↦ commit_or_push (registered gateway args new) (some path) args.dvc_hash now
  ]

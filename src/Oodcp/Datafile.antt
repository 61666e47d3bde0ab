-- ===== src/Oodcp/Datafile.antt =====
-- The methods of dvc/oodcp/domain/entities/datafile.py. `new`, `now` and `clock` are what uuid4()
-- and now() give; `clock u` is the reading while the version of uuid `u` is treated.
use dvc.Base.{
  ℕ, String, Bool, true, false, Option, none, some, List, [], ◌∷◌, ◌==◌, string_eq, nat_eq, all,
  find, Result, return, Exec, pure, throw, lift, ◌>>=◌, ◌>>◌, or_raise, if◌then◌else◌,
}
use dvc.Oodcp.Values.{
  VersionStatus, StorageType, Error, not_found, value_error, Identifier, text, number, latest_for,
  nothing, storage_type_of,
}
use dvc.Oodcp.Entities.{Codec, StorageGateway, DataFile, DataVersion, Defaults}
use dvc.Oodcp.Tables.{Db}
use dvc.Oodcp.Convert.{version_cls}
use dvc.Oodcp.DataRepo.{
  get_dataversion, get_latest_dataversion, list_dataversions, add_dataversion, update_dataversion,
  get_next_version_number,
}
use dvc.Oodcp.Dataset.{truthy}
use dvc.Oodcp.Dataversion.{savedata}

-- `v.status == VersionStatus.DELETED`
abbrev pub is_deleted : VersionStatus → Bool
is_deleted VersionStatus.deleted = true
is_deleted _ = false

-- The arguments of `addversion` behind the gateway.
pub record VersionArgs (c : Codec) : Type 0 where
  pub source_path : Option String
  pub dvc_hash : Option String
  pub hash_algorithm : String
  pub storage_uri : String
  pub storage_type : String
  pub source_version_uuid : Option String
  pub transformer : String
  pub metadata : c.Dict

module _ (c : Codec) where
  abbrev pub found_version : Identifier → Option (DataVersion c) → Exec Error Db (DataVersion c)
  found_version identifier none = throw (not_found "DataVersion" identifier)
  found_version identifier (some v) = pure v

  abbrev pub of_number : Option ℕ → List (DataVersion c) → Option (DataVersion c)
  of_number none versions = none
  of_number (some n) versions = find (λ v. n == v.version_number) versions

  -- `str(version_number)`
  abbrev pub number_identifier : Option ℕ → Identifier
  number_identifier none = nothing
  number_identifier (some n) = number n

  abbrev pub version_by : DataFile c → Option ℕ → Option String → Exec Error Db (DataVersion c)
  version_by self version_number (some uuid) = do
    result ← get_dataversion c uuid
    found_version (text uuid) result
  version_by self version_number none = do
    versions ← list_dataversions c self.uuid true
    found_version (number_identifier version_number) (of_number version_number versions)

  unfoldable pub getversion :
      DataFile c
      → (version_number : Option ℕ) (uuid : Option String) → Exec Error Db (DataVersion c)
  getversion self none none = throw value_error
  getversion self none (some uuid) = version_by self none (truthy (some uuid))
  getversion self (some n) uuid = version_by self (some n) (truthy uuid)

  unfoldable pub getlatestversion : DataFile c → Exec Error Db (DataVersion c)
  getlatestversion self = do
    result ← get_latest_dataversion c self.uuid
    found_version (latest_for self.uuid) result

  -- The new object, still a draft.
  abbrev pub draft_version :
      DataFile c → StorageGateway → VersionArgs c → Defaults c → StorageType → ℕ → DataVersion c
  draft_version self gateway args new st n = record {
    class = version_cls st;
    uuid = new.uuid;
    datafile_uuid = self.uuid;
    version_number = n;
    dvc_hash = elim args.dvc_hash [ none ↦ "" | some h ↦ h ];
    hash_algorithm = args.hash_algorithm;
    storage_uri = args.storage_uri;
    status = VersionStatus.draft;
    source_version_uuid = args.source_version_uuid;
    transformer = args.transformer;
    metadata = args.metadata;
    created_at = new.created_at;
    updated_at = new.updated_at;
    storage_gateway = some gateway;
  }

  -- `if source_path is not None: ... elif dvc_hash: ...`
  unfoldable pub fill_version :
      DataVersion c
      → (source_path dvc_hash : Option String) → c.Datetime
      → Result Error (DataVersion c)
  unfolding savedata
  fill_version v (some path) dvc_hash now = savedata c v path now
  fill_version v none none now = return v
  fill_version v none (some h) now =
      return
        (if h == "" then v else record v { status = VersionStatus.committed; updated_at = now })

  abbrev pub store_version : DataVersion c → Exec Error Db (DataVersion c)
  store_version v = do add_dataversion c v; pure v

  abbrev pub build_version :
      DataFile c
      → StorageGateway
      → VersionArgs c
      → Defaults c
      → c.Datetime
      → ℕ
      → Result Error (DataVersion c)
  build_version self gateway args new now n =
      or_raise value_error (storage_type_of args.storage_type) λ st.
        fill_version (draft_version self gateway args new st n) args.source_path args.dvc_hash now

  abbrev pub add_numbered :
      DataFile c
      → StorageGateway
      → VersionArgs c
      → Defaults c
      → c.Datetime
      → Exec Error Db (DataVersion c)
  add_numbered self gateway args new now = do
    n ← get_next_version_number self.uuid
    v ← lift (build_version self gateway args new now n)
    store_version v

  -- `source_path is None and dvc_hash is None`
  abbrev pub no_data : Option String → Option String → Bool
  no_data none none = true
  no_data none (some h) = false
  no_data (some p) dvc_hash = false

  unfoldable pub addversion :
      DataFile c
      → StorageGateway
      → VersionArgs c
      → Defaults c
      → c.Datetime
      → Exec Error Db (DataVersion c)
  unfolding fill_version
  addversion self gateway args new now =
      if no_data args.source_path args.dvc_hash
      then throw value_error
      else add_numbered self gateway args new now

  unfoldable pub listversions : DataFile c → Bool → Exec Error Db (List (DataVersion c))
  listversions self include_deleted = list_dataversions c self.uuid include_deleted

  abbrev pub deleted_version : DataVersion c → c.Datetime → DataVersion c
  deleted_version v now = record v { status = VersionStatus.deleted; updated_at = now }

  unfoldable pub delversion : DataFile c → ℕ → c.Datetime → Exec Error Db (Unit {0})
  unfolding getversion
  delversion self version_number now = do
    v ← getversion self (some version_number) none
    update_dataversion c (deleted_version v now)

  unfoldable pub delete_versions :
      (String → c.Datetime) → List (DataVersion c) → Exec Error Db (Unit {0})
  delete_versions clock [] = pure tt
  delete_versions clock (v ∷ versions) = do
    update_dataversion c (deleted_version v (clock v.uuid))
    delete_versions clock versions

  unfoldable pub delallversions : DataFile c → (String → c.Datetime) → Exec Error Db (Unit {0})
  unfolding delete_versions listversions
  delallversions self clock = do versions ← listversions self false; delete_versions clock versions

  unfoldable pub candelete : DataFile c → Exec Error Db Bool
  unfolding listversions
  candelete self = do
    versions ← listversions self true
    pure (all (λ v. is_deleted v.status) versions)

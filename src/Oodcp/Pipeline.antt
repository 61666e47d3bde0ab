-- ===== src/Oodcp/Pipeline.antt =====
-- dvc/oodcp/integration/pipeline.py: a pipeline dependency on a version. The parts of the URI are
-- the fields; the hash info is the dict that it wraps, as the fields of `get_hash`.
pub mod Laws
use dvc.Base.{
  ℕ, String, true, false, Option, none, some, List, [], ◌∷◌, ◌==◌, string_eq, nat_eq, find, Exec,
  pure, throw, lift, ◌>>=◌, Result, return, raise, if◌then◌else◌,
}
use dvc.Oodcp.Values.{Error}
use dvc.Oodcp.Entities.{Codec, DataSet, DataFile, DataVersion}
use dvc.Oodcp.Tables.{Db}
use dvc.Oodcp.DataRepo.{
  get_dataset_by_name, get_datafile_by_name, list_dataversions, get_latest_dataversion,
}
use dvc.Oodcp.Dataversion.{getdata}

pub record OodcpInfo : Type 0 where
  pub dvc_hash : String
  pub hash_algorithm : String
  pub version_number : ℕ
  pub dataset : String
  pub file : String

-- `info` is the dict in `hash_info`, or None where that dict is empty.
pub record OodcpDependency : Type 0 where
  pub dataset_name : String
  pub file_name : String
  pub pinned_version : Option ℕ
  pub info : Option OodcpInfo

pub data Status : Type 0 where
  unchanged new modified deleted : Status

-- What the callers of `download` see beside the exceptions of the subsystem.
pub data Failure : Type 0 where
  dvc_exception : Failure
  of_error : Error → Failure

module _ (c : Codec) where
  abbrev pub in_file : Option ℕ → Option (DataFile c) → Exec Error Db (Option (DataVersion c))
  in_file pinned none = pure none
  in_file none (some df) = get_latest_dataversion c df.uuid
  in_file (some n) (some df) = do
    versions ← list_dataversions c df.uuid false
    pure (find (λ v. v.version_number == n) versions)

  abbrev pub in_dataset :
      String → Option ℕ → Option (DataSet c) → Exec Error Db (Option (DataVersion c))
  in_dataset file_name pinned none = pure none
  in_dataset file_name pinned (some ds) = do
    df ← get_datafile_by_name c ds.uuid file_name
    in_file pinned df

  unfoldable pub resolve_version : OodcpDependency → Exec Error Db (Option (DataVersion c))
  resolve_version self = do
    ds ← get_dataset_by_name c self.dataset_name
    in_dataset self.file_name self.pinned_version ds

  unfoldable pub get_current_hash : OodcpDependency → Exec Error Db (Option String)
  unfolding resolve_version
  get_current_hash self = do
    version ← resolve_version self
    pure (elim version [ none ↦ none | some v ↦ some v.dvc_hash ])

  -- `stored.get("dvc_hash")`
  abbrev pub stored_hash : OodcpDependency → Option String
  stored_hash self = elim self.info [ none ↦ none | some i ↦ some i.dvc_hash ]

  abbrev pub compare_hashes : Option String → Option String → Status
  compare_hashes none none = new
  compare_hashes none (some h) = if h == "" then new else deleted
  compare_hashes (some current) none = new
  compare_hashes (some current) (some h) = if current == h then unchanged else modified

  unfoldable pub workspace_status : OodcpDependency → Exec Error Db Status
  unfolding get_current_hash
  workspace_status self = do
    current_hash ← get_current_hash self
    pure (compare_hashes current_hash (stored_hash self))

  abbrev pub info_of : OodcpDependency → Option (DataVersion c) → Option OodcpInfo
  info_of self none = none
  info_of self (some version) = some (record {
    dvc_hash = version.dvc_hash;
    hash_algorithm = version.hash_algorithm;
    version_number = version.version_number;
    dataset = self.dataset_name;
    file = self.file_name;
  })

  unfoldable pub get_hash : OodcpDependency → Exec Error Db (Option OodcpInfo)
  unfolding resolve_version
  get_hash self = do version ← resolve_version self; pure (info_of self version)

  -- The dependency after the call.
  unfoldable pub save : OodcpDependency → Exec Error Db OodcpDependency
  unfolding get_hash
  save self = do info ← get_hash self; pure (record self { info = info })

module _ (c : Codec) where
  abbrev pub fetch : Result Error (Option (DataVersion c)) → String → Result Failure (Unit {0})
  fetch (raise e) to = raise (of_error e)
  fetch (return none) to = raise dvc_exception
  fetch (return (some version)) to = elim (getdata c version to) [
    | return path ↦ return tt
    | raise e ↦ raise (of_error e)
  ]

  unfoldable pub download : OodcpDependency → String → Exec Failure Db (Unit {0})
  unfolding resolve_version getdata
  download self to db = let (version, db') = resolve_version c self db in (fetch version to, db')

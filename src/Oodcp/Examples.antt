-- ===== src/Oodcp/Examples.antt =====
-- Tests of the dvc/oodcp model on a small database, and the theorems at concrete inputs.
use text.Mathlib.TextEquality.{eq_iff}
use dvc.Base.{
  ℕ, String, ◌≡◌, ◌≢◌, refl, ◌≤◌, ◌<◌, ◌+◌, ◌-◌, ◌⊎◌, inl, ◌↔◌, Bool, true, false, Option, none,
  some, List, [], ◌∷◌, ◌==◌, string_eq, option_eq, pair_eq, nat_eq, map, Distinct, All, In,
  Ascending, return, raise, arith, suc, if◌then◌else◌,
}
use dvc.Oodcp.Values.{
  EntityStatus, VersionStatus, local, duplicate_name, value_error, storage_error, entity_status,
  entity_status_value, version_status, version_status_value, storage_type_value, storage_type_of,
}
use dvc.Oodcp.Entities.{
  Codec, IsFaithful, StorageGateway, DataSet, DataFile, DataVersion, Defaults, local_data_version,
  storage_type,
}
use dvc.Oodcp.Tables.{DataSetRow, DataFileRow, DataVersionRow, Db, IsValid, dataversion_uuids}
use dvc.Oodcp.Convert.{
  version_cls, dataset_to_dict, dataset_from_dict, datafile_to_dict, datafile_from_dict,
  dataversion_to_dict, dataversion_from_dict, dataset_from_dict-to_dict,
  dataversion_from_dict-to_dict,
}
use dvc.Oodcp.DatasetDal
use dvc.Oodcp.DatafileDal
use dvc.Oodcp.DataversionDal
use dvc.Oodcp.DataversionDal.{get_latest, list_for_datafile, get_lineage_chain}
use dvc.Oodcp.DataRepo
use dvc.Oodcp.DataRepo.{get_dataversion}
use dvc.Oodcp.Dataset.{addfile, getfile, new_file}
use dvc.Oodcp.Datafile.{VersionArgs, addversion, delallversions, candelete}
use dvc.Oodcp.Factories.{CreateArgs, create_dataversion, registered}
use dvc.Oodcp.Services.{verify_version, verify_batch, get_descendants, lookup}
use dvc.Oodcp.Pipeline.{OodcpDependency, resolve_version, save, workspace_status, download}
use dvc.Oodcp.Trace.{Call, empty_db, run}
use dvc.Oodcp.Valid.Readable.{IsReadable}
use dvc.Oodcp.Valid.Runs.{run-IsValid, run-IsReadable}
use dvc.Oodcp.Lookup.{saved_dataset, Keeps, dataset_get-save, dataversion_get-save}
use dvc.Oodcp.Versions.Queries.{
  IsCommitted, IsListed, get_latest-some, get_latest-none, list_for_datafile_lem,
}
use dvc.Oodcp.Versions.Numbering.{addversion-number}
use dvc.Oodcp.Deletion.{delallversions-candelete}
use dvc.Oodcp.Lineage.{follow, get_lineage_chain-eq-follow}
use dvc.Oodcp.Lineage.Provenance.{IsProvenance, get_lineage_chain-IsProvenance}
use dvc.Oodcp.Dataset.Laws.{addfile_duplicate, addfile-getfile}
use dvc.Oodcp.Factories.Laws.{
  create_dataversion_hash, create_dataversion_status, create_dataversion_raise,
}
use dvc.Oodcp.Services.Laws.{verify_batch-lookup, get_descendants-datafile}
use dvc.Oodcp.Pipeline.Laws.{download_fails}

-- Dates and dicts that are their own text.
abbrev plain : Codec
plain = record {
  Datetime = String;
  isoformat = λ t. t;
  fromisoformat = λ s. some s;
  Dict = String;
  dumps = λ d. d;
  loads = λ s. some s;
}

plain-IsFaithful : IsFaithful plain
plain-IsFaithful = record { fromisoformat-isoformat = λ t. refl; loads-dumps = λ d. refl }

-- A gateway that has only the object "h1".
abbrev remote : StorageGateway
unfolding string_eq
remote = record {
  push = λ path uri. if path == "" then raise storage_error else return ("h9", "md5");
  pull = λ h a dest. return dest;
  verify = λ h a. return (h == "h1");
}

abbrev birds : DataSet plain
birds = record {
  uuid = "s1";
  name = "birds";
  description = "";
  project = "";
  owner = "eve";
  status = EntityStatus.active;
  created_at = "t0";
  updated_at = "t0";
  shared_metadata = "{}";
}

abbrev defaults : String → Defaults plain
defaults u = record { uuid = u; created_at = "t1"; updated_at = "t1" }

abbrev train : DataFile plain
train = record {
  uuid = "f1";
  dataset_uuid = "s1";
  name = "train";
  description = "";
  owner = "eve";
  status = EntityStatus.active;
  created_at = "t1";
  updated_at = "t1";
}

abbrev known : String → Option String → VersionArgs plain
known h source = record {
  source_path = none;
  dvc_hash = some h;
  hash_algorithm = "md5";
  storage_uri = "";
  storage_type = "LOCAL";
  source_version_uuid = source;
  transformer = "";
  metadata = "{}";
}

abbrev calls : List (Call plain)
calls =
    Call.add_dataset birds
    ∷ Call.addfile birds "train" "" "" (defaults "f1")
    ∷ Call.addversion train remote (known "h1" none) (defaults "v1") "t2"
    ∷ Call.addversion train remote (known "h2" (some "v1")) (defaults "v2") "t3"
    ∷ Call.addversion train remote (known "h3" (some "gone")) (defaults "v3") "t4"
    ∷ []

abbrev dataset_row : DataSetRow
dataset_row = record {
  uuid = "s1";
  name = "birds";
  description = "";
  project = "";
  owner = "eve";
  status = "ACTIVE";
  created_at = "t0";
  updated_at = "t0";
  shared_metadata = "{}";
}

abbrev datafile_row : DataFileRow
datafile_row = record {
  uuid = "f1";
  dataset_uuid = "s1";
  name = "train";
  description = "";
  owner = "eve";
  status = "ACTIVE";
  created_at = "t1";
  updated_at = "t1";
}

abbrev version_row : String → ℕ → String → Option String → String → DataVersionRow
version_row u n h source t = record {
  uuid = u;
  datafile_uuid = "f1";
  version_number = n;
  dvc_hash = h;
  hash_algorithm = "md5";
  storage_uri = "";
  storage_type = "LOCAL";
  status = "COMMITTED";
  source_version_uuid = source;
  transformer = "";
  metadata = "{}";
  created_at = "t1";
  updated_at = t;
}

-- What the calls leave. The last one names an unknown source and is refused.
abbrev stored : Db
stored = record {
  datasets = dataset_row ∷ [];
  datafiles = datafile_row ∷ [];
  dataversions = version_row "v1" 1 "h1" none "t2" ∷ version_row "v2" 2 "h2" (some "v1") "t3" ∷ [];
}

program : Unit {0}
unfolding run DataRepo.add_dataset DataRepo.add_datafile DataRepo.add_dataversion
    DataRepo.get_datafile_by_name DataRepo.get_next_version_number DataRepo.get_dataset_by_name
    DataRepo.get_latest_dataversion DataRepo.list_dataversions DataRepo.get_dataversion
    DataRepo.update_dataversion DatasetDal.save DatafileDal.save DataversionDal.save DatasetDal.get
    DatafileDal.get DataversionDal.get DatasetDal.get_by_name DatafileDal.get_by_name
    DataversionDal.get_next_version_number DataversionDal.get_latest
    DataversionDal.list_for_datafile DataversionDal.get_lineage_chain addfile addversion
    dataset_to_dict dataset_from_dict datafile_to_dict datafile_from_dict dataversion_to_dict
    dataversion_from_dict entity_status entity_status_value version_status version_status_value
    storage_type_value storage_type_of storage_type version_cls string_eq pair_eq nat_eq option_eq
    create_dataversion verify_batch get_descendants resolve_version save workspace_status
program = tt

run-calls : run plain calls empty_db ≡ stored
unfolding program
run-calls = refl

run-IsValid_example : IsValid (run plain calls empty_db)
run-IsValid_example = run-IsValid plain calls

stored-IsValid : IsValid stored
stored-IsValid = rw run-calls at (run-IsValid plain calls)

stored-IsReadable : IsReadable plain stored
stored-IsReadable = rw run-calls at (run-IsReadable plain plain-IsFaithful calls)

-- A version that changes its status; the number is not among the columns that change.
abbrev changed : DataVersionRow
changed = record (version_row "v2" 7 "h2" none "t8") { status = "DELETED" }

dataset_saved_test :
    DatasetDal.get "s1" (DatasetDal.save dataset_row empty_db).1
    ≡ some (saved_dataset dataset_row (DatasetDal.get "s1" empty_db))
unfolding program
dataset_saved_test = dataset_get-save dataset_row empty_db "s1" refl

dataversion_get-save_example :
    ((r : DataVersionRow) × (DataversionDal.get "v2" (DataversionDal.save changed stored).1
        ≡ some r)
      × Keeps (version_row "v2" 2 "h2" (some "v1") "t3") changed r)
    × ((j : String)
        → j ≢ "v2"
        → DataversionDal.get j (DataversionDal.save changed stored).1 ≡ DataversionDal.get j stored)
unfolding program
dataversion_get-save_example = dataversion_get-save changed stored refl

get_latest-some_example :
    In (version_row "v2" 2 "h2" (some "v1") "t3") stored.dataversions
    × IsCommitted "f1" (version_row "v2" 2 "h2" (some "v1") "t3")
    × All (λ s. IsCommitted "f1" s → s.version_number ≤ 2) stored.dataversions
unfolding program
get_latest-some_example = get_latest-some "f1" stored refl

get_latest-none_example : All (λ s. ¬ (IsCommitted "f2" s)) stored.dataversions
unfolding program
get_latest-none_example = get_latest-none "f2" stored refl

list_for_datafile_example :
    Ascending (map (λ (r : DataVersionRow). r.version_number) (list_for_datafile "f1" false stored))
    × ((r : DataVersionRow)
        → In r (list_for_datafile "f1" false stored)
          ↔ (In r stored.dataversions × IsListed "f1" false r))
list_for_datafile_example = list_for_datafile_lem "f1" false stored

-- The version that a third call returns.
abbrev third : DataVersion plain
third = record {
  class = local_data_version;
  uuid = "v4";
  datafile_uuid = "f1";
  version_number = 3;
  dvc_hash = "h4";
  hash_algorithm = "md5";
  storage_uri = "";
  status = VersionStatus.committed;
  source_version_uuid = some "v2";
  transformer = "";
  metadata = "{}";
  created_at = "t1";
  updated_at = "t5";
  storage_gateway = some remote;
}

addversion-number_example :
    (third.version_number ≡ DataversionDal.get_next_version_number "f1" stored)
    × All (λ r. "f1" ≡ r.datafile_uuid → r.version_number < 3) stored.dataversions
    × (DataversionDal.get_next_version_number "f1"
          (addversion plain train remote (known "h4" (some "v2")) (defaults "v4") "t5" stored).1
        ≡ 3 + 1)
unfolding program
addversion-number_example =
    addversion-number plain train remote (known "h4" (some "v2")) (defaults "v4") "t5" stored
      {v = third} refl refl

delallversions-candelete_example :
    ((delallversions plain train (λ u. "t9") stored).0 ≡ return tt)
    × All
        (λ r. "f1" ≡ r.datafile_uuid → r.status ≡ "DELETED")
        (delallversions plain train (λ u. "t9") stored).1.dataversions
    × ((candelete plain train (delallversions plain train (λ u. "t9") stored).1).0 ≡ return true)
delallversions-candelete_example =
    delallversions-candelete plain plain-IsFaithful train (λ u. "t9") stored stored-IsReadable

get_lineage_chain-eq-follow_example :
    get_lineage_chain "v2" 100 stored ≡ follow stored.dataversions (suc (100 - 1)) (some "v2")
get_lineage_chain-eq-follow_example =
    get_lineage_chain-eq-follow "v2" 100 stored stored-IsValid.dataversion_uuid

abbrev age : String → ℕ
unfolding string_eq
age u = if u == "v1" then 0 else 1

get_lineage_chain-IsProvenance_example :
    IsProvenance (some "v2") (get_lineage_chain "v2" 100 stored)
    × Distinct (dataversion_uuids (get_lineage_chain "v2" 100 stored))
unfolding string_eq
get_lineage_chain-IsProvenance_example =
    get_lineage_chain-IsProvenance age "v2" 100 stored stored-IsValid (omega arith) refl
      (omega arith)

addfile_duplicate_example :
    addfile plain birds "train" "" "" (defaults "f2") stored
    ≡ (raise (duplicate_name "DataFile" "train"), stored)
unfolding program
addfile_duplicate_example =
    addfile_duplicate plain birds "train" "" "" (defaults "f2") stored datafile_row
      stored-IsReadable (inl refl) refl refl

abbrev test_file : DataFile plain
test_file = record train { uuid = "f2"; name = "test" }

addfile-getfile_example :
    (test_file ≡ new_file plain birds "test" "" "" (defaults "f2"))
    × (getfile plain birds
          (some "test")
          none
          (addfile plain birds "test" "" "" (defaults "f2") stored).1
        ≡ (return test_file, (addfile plain birds "test" "" "" (defaults "f2") stored).1))
unfolding program
addfile-getfile_example =
    addfile-getfile plain plain-IsFaithful birds "test" "" "" (defaults "f2") stored
      {df = test_file} refl refl

dataset_converted_test : dataset_from_dict plain (dataset_to_dict plain birds) ≡ return birds
dataset_converted_test = dataset_from_dict-to_dict plain plain-IsFaithful birds

dataversion_from_dict-to_dict_example :
    dataversion_from_dict plain (dataversion_to_dict plain third)
    ≡ return (record third { storage_gateway = none })
dataversion_from_dict-to_dict_example = dataversion_from_dict-to_dict plain plain-IsFaithful third

abbrev create_args : Option String → Option String → CreateArgs plain
create_args path h = record {
  datafile_uuid = "f1";
  version_number = 3;
  storage_type = local;
  storage_uri = "";
  source_path = path;
  dvc_hash = h;
  hash_algorithm = "md5";
  source_version_uuid = none;
  transformer = "";
  metadata = "{}";
}

h4_full : ◌≢◌ {A = String} "h4" ""
h4_full = ground (arith, eq_iff "h4" "")

create_hash_test :
    create_dataversion plain remote (create_args (some "a.csv") (some "h4")) (defaults "v4") "t5"
    ≡ return
        (record (registered plain remote (create_args (some "a.csv") (some "h4")) (defaults "v4")) {
          status = VersionStatus.committed;
        })
create_hash_test =
    create_dataversion_hash plain remote (create_args (some "a.csv") (some "h4")) (defaults "v4")
      "t5" "h4" refl h4_full

-- An empty hash and local data.
abbrev version_four : DataVersion plain
version_four =
    record (registered plain remote (create_args (some "a.csv") (some "")) (defaults "v4")) {
      dvc_hash = "h9";
      status = VersionStatus.committed;
      updated_at = "t5";
    }

create_dataversion_status_example :
    ((VersionStatus.committed ≡ VersionStatus.committed)
      × (◌≡◌ {A = Option String} (some "") (some "h9"))
      × (◌≢◌ {A = String} "h9" ""))
    ⊎ (((◌≡◌ {A = Option String} (some "") none) ⊎ (◌≡◌ {A = Option String} (some "") (some "")))
        × (VersionStatus.committed ≡ VersionStatus.committed)
        × ((path : String) × (◌≡◌ {A = Option String} (some "a.csv") (some path))
            × (remote.push path "" ≡ return ("h9", "md5"))))
    ⊎ ((VersionStatus.committed ≡ VersionStatus.draft)
        × (◌≡◌ {A = String} "h9" "")
        × (◌≡◌ {A = Option String} (some "") (some ""))
        × (◌≡◌ {A = Option String} (some "a.csv") none))
unfolding program
create_dataversion_status_example =
    create_dataversion_status plain remote (create_args (some "a.csv") (some "")) (defaults "v4")
      "t5" {v = version_four} refl

create_raises_test :
    ((storage_error ≡ value_error)
      × (◌≡◌ {A = Option String} (some "") none)
      × (◌≡◌ {A = Option String} none none))
    ⊎ ((path : String) × (◌≡◌ {A = Option String} (some "") (some path))
        × (remote.push path "" ≡ raise storage_error))
unfolding program
create_raises_test =
    create_dataversion_raise plain remote (create_args (some "") none) (defaults "v4") "t5"
      {x = storage_error} refl

verify_batch-lookup_example :
    All
      (λ v.
        (b : Bool) × (verify_version plain remote v ≡ return b)
        × (lookup v.uuid (("v4", false) ∷ []) ≡ some b))
      (third ∷ [])
unfolding program
verify_batch-lookup_example =
    verify_batch-lookup plain remote (third ∷ []) {results = ("v4", false) ∷ []} refl (refl, tt)

-- `v1` and `v2` as they are read back.
abbrev first_read : DataVersion plain
first_read = record third {
  uuid = "v1";
  version_number = 1;
  dvc_hash = "h1";
  source_version_uuid = none;
  updated_at = "t2";
  storage_gateway = none;
}

abbrev second_read : DataVersion plain
second_read = record third {
  uuid = "v2";
  version_number = 2;
  dvc_hash = "h2";
  source_version_uuid = some "v1";
  updated_at = "t3";
  storage_gateway = none;
}

descendants_test :
    All
      (λ (v : DataVersion plain). (v.source_version_uuid ≡ some "v1") × (v.datafile_uuid ≡ "f1"))
      (second_read ∷ [])
unfolding program
descendants_test =
    get_descendants-datafile plain "v1" stored {w = first_read} {vs = second_read ∷ []} refl refl

abbrev dependency : OodcpDependency
dependency = record {
  dataset_name = "birds";
  file_name = "train";
  pinned_version = none;
  info = none;
}

abbrev saved_dependency : OodcpDependency
saved_dependency = record dependency {
  info = some (record {
    dvc_hash = "h2";
    hash_algorithm = "md5";
    version_number = 2;
    dataset = "birds";
    file = "train";
  });
}

download_fails_example : (download plain dependency "out" stored).0 ≢ return tt
download_fails_example = download_fails plain dependency "out" stored

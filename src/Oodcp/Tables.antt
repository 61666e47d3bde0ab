-- ===== src/Oodcp/Tables.antt =====
-- The tables of dvc/oodcp/data/schema.py, as lists of rows in the order of insertion.
use dvc.Base.{
  ℕ, String, ◌≡◌, true, Option, none, some, List, string_eq, nat_eq, pair_eq, map, contains, All,
  Distinct,
}

pub record DataSetRow : Type 0 where
  pub uuid : String
  pub name : String
  pub description : String
  pub project : String
  pub owner : String
  pub status : String
  pub created_at : String
  pub updated_at : String
  pub shared_metadata : String

pub record DataFileRow : Type 0 where
  pub uuid : String
  pub dataset_uuid : String
  pub name : String
  pub description : String
  pub owner : String
  pub status : String
  pub created_at : String
  pub updated_at : String

pub record DataVersionRow : Type 0 where
  pub uuid : String
  pub datafile_uuid : String
  pub version_number : ℕ
  pub dvc_hash : String
  pub hash_algorithm : String
  pub storage_uri : String
  pub storage_type : String
  pub status : String
  pub source_version_uuid : Option String
  pub transformer : String
  pub metadata : String
  pub created_at : String
  pub updated_at : String

pub record Db : Type 0 where
  pub datasets : List DataSetRow
  pub datafiles : List DataFileRow
  pub dataversions : List DataVersionRow

-- The columns under UNIQUE and PRIMARY KEY.
abbrev pub dataset_uuids : List DataSetRow → List String
dataset_uuids = map (λ r. r.uuid)

abbrev pub dataset_names : List DataSetRow → List String
dataset_names = map (λ r. r.name)

abbrev pub datafile_uuids : List DataFileRow → List String
datafile_uuids = map (λ r. r.uuid)

abbrev pub datafile_names : List DataFileRow → List (String × String)
datafile_names = map (λ r. (r.dataset_uuid, r.name))

abbrev pub dataversion_uuids : List DataVersionRow → List String
dataversion_uuids = map (λ r. r.uuid)

abbrev pub dataversion_numbers : List DataVersionRow → List (String × ℕ)
dataversion_numbers = map (λ r. (r.datafile_uuid, r.version_number))

-- `REFERENCES dataversions(uuid)`: NULL refers to nothing.
abbrev pub RefersTo : List String → Option String → Type 0
RefersTo uuids none = Unit
RefersTo uuids (some u) = contains uuids u ≡ true

-- The constraints of the schema.
pub record IsValid (db : Db) : Type 0 where
  pub dataset_uuid : Distinct (dataset_uuids db.datasets)
  pub dataset_name : Distinct (dataset_names db.datasets)
  pub datafile_uuid : Distinct (datafile_uuids db.datafiles)
  pub datafile_name : Distinct (datafile_names db.datafiles)
  pub dataversion_uuid : Distinct (dataversion_uuids db.dataversions)
  pub dataversion_number : Distinct (dataversion_numbers db.dataversions)
  pub datafile_parent :
      All
        (λ (r : DataFileRow). contains (dataset_uuids db.datasets) r.dataset_uuid ≡ true)
        db.datafiles
  pub dataversion_parent :
      All
        (λ (r : DataVersionRow). contains (datafile_uuids db.datafiles) r.datafile_uuid ≡ true)
        db.dataversions
  pub dataversion_source :
      All
        (λ (r : DataVersionRow). RefersTo (dataversion_uuids db.dataversions) r.source_version_uuid)
        db.dataversions

-- ===== src/Oodcp/DatasetDal.antt =====
-- dvc/oodcp/data/dal/dataset_dal.py. `INSERT ... ON CONFLICT(uuid) DO UPDATE` changes the row of
-- that uuid, or inserts one; a row that breaks a constraint raises and changes nothing.
use dvc.Base.{
  String, Bool, not, ◌&&◌, Option, List, [], ◌∷◌, ◌++◌, ◌==◌, string_eq, find, select, any, update,
  Exec, throw, return, if◌then◌else◌,
}
use dvc.Oodcp.Values.{Error, unique_violation}
use dvc.Oodcp.Tables.{DataSetRow, Db}

-- `DO UPDATE SET`, on the columns that it names.
abbrev pub updated : DataSetRow → DataSetRow → DataSetRow
updated row old = record old {
  name = row.name;
  description = row.description;
  project = row.project;
  owner = row.owner;
  status = row.status;
  updated_at = row.updated_at;
  shared_metadata = row.shared_metadata;
}

-- Another row has the name.
abbrev pub name_taken : DataSetRow → List DataSetRow → Bool
name_taken row rows = any (λ r. not (row.uuid == r.uuid) && row.name == r.name) rows

unfoldable pub save : DataSetRow → Exec Error Db (Unit {0})
save row db =
    if name_taken row db.datasets
    then throw unique_violation db
    else if any (λ r. row.uuid == r.uuid) db.datasets
    then (
      return tt,
      record db { datasets = update (λ r. row.uuid == r.uuid) (updated row) db.datasets },
    )
    else (return tt, record db { datasets = db.datasets ++ row ∷ [] })

unfoldable pub get : String → Db → Option DataSetRow
get uuid db = find (λ r. uuid == r.uuid) db.datasets

unfoldable pub get_by_name : String → Db → Option DataSetRow
get_by_name name db = find (λ r. name == r.name) db.datasets

unfoldable pub list_all : Bool → Db → List DataSetRow
list_all include_deleted db =
    if include_deleted then db.datasets else select (λ r. not ("DELETED" == r.status)) db.datasets

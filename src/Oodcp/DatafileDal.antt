-- ===== src/Oodcp/DatafileDal.antt =====
-- dvc/oodcp/data/dal/datafile_dal.py. The row that is there keeps its dataset: `dataset_uuid` is not
-- among the columns that `DO UPDATE SET` names.
use dvc.Base.{
  String, Bool, not, ◌&&◌, Option, none, some, List, [], ◌∷◌, ◌++◌, ◌==◌, string_eq, find, select,
  any, update, contains, Exec, throw, return, if◌then◌else◌,
}
use dvc.Oodcp.Values.{Error, unique_violation, foreign_key_violation}
use dvc.Oodcp.Tables.{DataFileRow, Db, dataset_uuids}

abbrev pub updated : DataFileRow → DataFileRow → DataFileRow
updated row old = record old {
  name = row.name;
  description = row.description;
  owner = row.owner;
  status = row.status;
  updated_at = row.updated_at;
}

-- Another row of the dataset has the name.
abbrev pub name_taken : DataFileRow → List DataFileRow → Bool
name_taken row rows =
    any
      (λ r. not (row.uuid == r.uuid) && (row.dataset_uuid == r.dataset_uuid && row.name == r.name))
      rows

unfoldable pub insert : DataFileRow → Exec Error Db (Unit {0})
insert row db =
    if name_taken row db.datafiles
    then throw unique_violation db
    else if contains (dataset_uuids db.datasets) row.dataset_uuid
    then (return tt, record db { datafiles = db.datafiles ++ row ∷ [] })
    else throw foreign_key_violation db

-- The row `old` of the uuid becomes `updated data old`.
unfoldable pub rewrite : DataFileRow → DataFileRow → Exec Error Db (Unit {0})
rewrite row old db =
    if name_taken (updated row old) db.datafiles then throw unique_violation db else (
      return tt,
      record db { datafiles = update (λ r. old.uuid == r.uuid) (updated row) db.datafiles },
    )

unfoldable pub save : DataFileRow → Exec Error Db (Unit {0})
unfolding insert rewrite
save row db = elim (find (λ r. row.uuid == r.uuid) db.datafiles) [
  | none ↦ insert row db
  | some old ↦ rewrite row old db
]

unfoldable pub get : String → Db → Option DataFileRow
get uuid db = find (λ r. uuid == r.uuid) db.datafiles

unfoldable pub get_by_name : String → String → Db → Option DataFileRow
get_by_name dataset_uuid name db =
    find (λ r. dataset_uuid == r.dataset_uuid && name == r.name) db.datafiles

unfoldable pub list_for_dataset : String → Bool → Db → List DataFileRow
list_for_dataset dataset_uuid include_deleted db =
    if include_deleted
    then select (λ r. dataset_uuid == r.dataset_uuid) db.datafiles
    else select (λ r. dataset_uuid == r.dataset_uuid && not ("DELETED" == r.status)) db.datafiles

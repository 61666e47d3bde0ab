-- ===== src/Oodcp/DataversionDal.antt =====
-- dvc/oodcp/data/dal/dataversion_dal.py. Of a row that is there, the datafile, the number, the
-- storage type, the source and the time of creation never change.
use Prim.Native.Nat.{max}
use dvc.Base.{
  ℕ, zero, suc, ◌+◌, ◌-◌, String, Bool, true, not, ◌&&◌, ◌||◌, Option, none, some, List, [], ◌∷◌,
  ◌++◌, ◌==◌, string_eq, nat_eq, find, select, any, update, contains, leb, order_by, first, Exec,
  throw, return, if◌then◌else◌,
}
use mathlib.Core.List.{flat_map}
use dvc.Oodcp.Values.{Error, unique_violation, foreign_key_violation}
use dvc.Oodcp.Tables.{DataVersionRow, Db, datafile_uuids, dataversion_uuids}

abbrev pub updated : DataVersionRow → DataVersionRow → DataVersionRow
updated row old = record old {
  dvc_hash = row.dvc_hash;
  hash_algorithm = row.hash_algorithm;
  storage_uri = row.storage_uri;
  status = row.status;
  transformer = row.transformer;
  metadata = row.metadata;
  updated_at = row.updated_at;
}

-- A row of the datafile has the number.
abbrev pub number_taken : DataVersionRow → List DataVersionRow → Bool
number_taken row rows =
    any (λ r. row.datafile_uuid == r.datafile_uuid && row.version_number == r.version_number) rows

-- Both foreign keys hold once the row is in the table, so a row may name itself as its source.
abbrev pub source_known : DataVersionRow → List DataVersionRow → Bool
source_known row rows = elim row.source_version_uuid [
  | none ↦ true
  | some u ↦ u == row.uuid || contains (dataversion_uuids rows) u
]

unfoldable pub insert : DataVersionRow → Exec Error Db (Unit {0})
insert row db =
    if number_taken row db.dataversions
    then throw unique_violation db
    else if contains (datafile_uuids db.datafiles) row.datafile_uuid
        && source_known row db.dataversions
    then (return tt, record db { dataversions = db.dataversions ++ row ∷ [] })
    else throw foreign_key_violation db

unfoldable pub save : DataVersionRow → Exec Error Db (Unit {0})
unfolding insert
save row db =
    if any (λ r. row.uuid == r.uuid) db.dataversions
    then (
      return tt,
      record db { dataversions = update (λ r. row.uuid == r.uuid) (updated row) db.dataversions },
    )
    else insert row db

unfoldable pub get : String → Db → Option DataVersionRow
get uuid db = find (λ r. uuid == r.uuid) db.dataversions

-- `ORDER BY version_number DESC LIMIT 1`
unfoldable pub get_latest : String → Db → Option DataVersionRow
get_latest datafile_uuid db = first (
    order_by (λ a b. leb b.version_number a.version_number)
      (select (λ r. datafile_uuid == r.datafile_uuid && "COMMITTED" == r.status) db.dataversions))

unfoldable pub list_for_datafile : String → Bool → Db → List DataVersionRow
list_for_datafile datafile_uuid include_deleted db =
    order_by (λ a b. leb a.version_number b.version_number)
      (if include_deleted
        then select (λ r. datafile_uuid == r.datafile_uuid) db.dataversions
        else select (λ r. datafile_uuid == r.datafile_uuid && not ("DELETED" == r.status))
            db.dataversions)

-- `COALESCE(MAX(version_number), 0)`
unfoldable pub max_version_number : List DataVersionRow → ℕ
max_version_number [] = 0
max_version_number (r ∷ rows) = max r.version_number (max_version_number rows)

unfoldable pub get_next_version_number : String → Db → ℕ
unfolding max_version_number
get_next_version_number datafile_uuid db =
    max_version_number (select (λ r. datafile_uuid == r.datafile_uuid) db.dataversions) + 1

-- The rows that a row joins in the recursive part of the query.
unfoldable pub sources : List DataVersionRow → DataVersionRow → List DataVersionRow
sources rows l = elim l.source_version_uuid [
  | none ↦ []
  | some u ↦ select (λ dv. u == dv.uuid) rows
]

-- The rows of one depth and of those that follow, for `steps` more depths.
unfoldable pub lineage : List DataVersionRow → ℕ → List DataVersionRow → List DataVersionRow
unfolding sources
lineage rows zero level = level
lineage rows (suc steps) level = level ++ lineage rows steps (flat_map (sources rows) level)

-- The first depth is 1, and a row is expanded while its depth is below `max_depth`.
unfoldable pub get_lineage_chain : String → ℕ → Db → List DataVersionRow
unfolding lineage
get_lineage_chain version_uuid max_depth db =
    lineage db.dataversions (max_depth - 1) (select (λ r. version_uuid == r.uuid) db.dataversions)

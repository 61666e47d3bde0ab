-- ===== src/Oodcp/Lookup.antt =====
-- What the lookups by uuid find after a save.
use dvc.Base.{
  String, ◌≡◌, ◌≢◌, ◌∙◌, refl, Option, none, some, ◌==◌, string_eq, any, find, return, raise,
  Bool-cases, Option-cases, inl, inr, arith, find-update, find-snoc, find-any, any-find, find_key,
  if◌then◌else◌,
}
use dvc.Oodcp.Values.{Error}
use dvc.Oodcp.Tables.{DataSetRow, DataFileRow, DataVersionRow, Db}
use dvc.Oodcp.DatasetDal
use dvc.Oodcp.DatafileDal
use dvc.Oodcp.DataversionDal

-- The row that a save leaves: the new one, or the columns that may change of the one that is there.
abbrev pub saved_dataset : DataSetRow → Option DataSetRow → DataSetRow
saved_dataset row none = row
saved_dataset row (some old) = DatasetDal.updated row old

abbrev pub saved_datafile : DataFileRow → Option DataFileRow → DataFileRow
saved_datafile row none = row
saved_datafile row (some old) = DatafileDal.updated row old

abbrev pub saved_dataversion : DataVersionRow → Option DataVersionRow → DataVersionRow
saved_dataversion row none = row
saved_dataversion row (some old) = DataversionDal.updated row old

-- After a save of a dataset that returned, a lookup by uuid finds the row as the save leaves it, and
-- at any other uuid what it found before.
pub dataset_get-save :
    (row : DataSetRow) (db : Db) (j : String)
    → (DatasetDal.save row db).0 ≡ return tt
    → DatasetDal.get j (DatasetDal.save row db).1 ≡ (
        if j == row.uuid
        then some (saved_dataset row (DatasetDal.get row.uuid db))
        else DatasetDal.get j db)
unfolding DatasetDal.get DatasetDal.save
dataset_get-save row db j h = elim (Bool-cases (any (λ r. row.uuid == r.uuid) db.datasets)) [
  | inl there ↦
      let (old, e) = any-find (λ r. row.uuid == r.uuid) db.datasets there in
      ground (
        arith,
        e,
        find-update (λ (r : DataSetRow). r.uuid) row.uuid j (DatasetDal.updated row) db.datasets
            (λ r. refl),
      )
  | inr absent ↦ ground (
    arith,
    find-any (λ r. row.uuid == r.uuid) db.datasets absent,
    find-snoc (λ (r : DataSetRow). j == r.uuid) db.datasets row,
  )
]

-- The same of a datafile.
pub datafile_get-save :
    (row : DataFileRow) (db : Db) (j : String)
    → (DatafileDal.save row db).0 ≡ return tt
    → DatafileDal.get j (DatafileDal.save row db).1 ≡ (
        if j == row.uuid
        then some (saved_datafile row (DatafileDal.get row.uuid db))
        else DatafileDal.get j db)
unfolding DatafileDal.get DatafileDal.save
datafile_get-save row db j h = elim (Option-cases (find (λ r. row.uuid == r.uuid) db.datafiles)) [
  | inr (old, e) ↦ ground (
    arith,
    e,
    find_key (λ (r : DataFileRow). r.uuid) db.datafiles row.uuid {y = old} e,
    find-update (λ (r : DataFileRow). r.uuid) row.uuid j (DatafileDal.updated row) db.datafiles
        (λ r. refl),
  )
  | inl e ↦ ground (arith, e, find-snoc (λ (r : DataFileRow). j == r.uuid) db.datafiles row)
]

dataversion_get-saved :
    (row : DataVersionRow) (db : Db) (j : String)
    → (DataversionDal.save row db).0 ≡ return tt
    → DataversionDal.get j (DataversionDal.save row db).1 ≡ (
        if j == row.uuid
        then some (saved_dataversion row (DataversionDal.get row.uuid db))
        else DataversionDal.get j db)
unfolding DataversionDal.get DataversionDal.save
dataversion_get-saved row db j h =
    elim (Bool-cases (any (λ r. row.uuid == r.uuid) db.dataversions)) [
      | inl there ↦
          let (old, e) = any-find (λ r. row.uuid == r.uuid) db.dataversions there in
          ground (
            arith,
            e,
            find-update (λ (r : DataVersionRow). r.uuid) row.uuid j (DataversionDal.updated row)
                db.dataversions (λ r. refl),
          )
      | inr absent ↦ ground (
        arith,
        find-any (λ r. row.uuid == r.uuid) db.dataversions absent,
        find-snoc (λ (r : DataVersionRow). j == r.uuid) db.dataversions row,
      )
    ]

-- The columns that a version keeps from its first save, and those of its last.
abbrev pub Keeps : (first last r : DataVersionRow) → Type 0
Keeps first last r =
    (r.uuid ≡ first.uuid)
    × (r.datafile_uuid ≡ first.datafile_uuid)
    × (r.version_number ≡ first.version_number)
    × (r.storage_type ≡ first.storage_type)
    × (r.source_version_uuid ≡ first.source_version_uuid)
    × (r.created_at ≡ first.created_at)
    × (r.dvc_hash ≡ last.dvc_hash)
    × (r.hash_algorithm ≡ last.hash_algorithm)
    × (r.storage_uri ≡ last.storage_uri)
    × (r.status ≡ last.status)
    × (r.transformer ≡ last.transformer)
    × (r.metadata ≡ last.metadata)
    × (r.updated_at ≡ last.updated_at)

-- After a save of a version that returned, a lookup by its uuid finds a row whose uuid, datafile, number,
-- storage type, source and time of creation are those of the row that was found before, or of the
-- saved row if none was, and whose other columns are those of the saved row. A lookup by any other
-- uuid finds what it found before.
pub dataversion_get-save :
    (row : DataVersionRow) (db : Db)
    → (DataversionDal.save row db).0 ≡ return tt
    → ((r : DataVersionRow) × (DataversionDal.get row.uuid (DataversionDal.save row db).1 ≡ some r)
        × Keeps (elim (DataversionDal.get row.uuid db) [ none ↦ row | some old ↦ old ]) row r)
      × ((j : String)
          → j ≢ row.uuid
          → DataversionDal.get j (DataversionDal.save row db).1 ≡ DataversionDal.get j db)
dataversion_get-save row db h = (
  (
    saved_dataversion row (DataversionDal.get row.uuid db),
    dataversion_get-saved row db row.uuid h ∙ ground arith,
    kept (DataversionDal.get row.uuid db),
  ),
  λ j other. dataversion_get-saved row db j h ∙ ground (arith, other),
)
  where
    kept :
        (o : Option DataVersionRow)
        → Keeps (elim o [ none ↦ row | some old ↦ old ]) row (saved_dataversion row o)
    kept none = (refl, refl, refl, refl, refl, refl, refl, refl, refl, refl, refl, refl, refl)
    kept (some old) = (refl, refl, refl, refl, refl, refl, refl, refl, refl, refl, refl, refl, refl)

-- A save that raises leaves the tables as they were.
dataset_save-raise :
    (row : DataSetRow) (db : Db) {e : Error}
    → (DatasetDal.save row db).0 ≡ raise e
    → (DatasetDal.save row db).1 ≡ db
unfolding DatasetDal.save
dataset_save-raise row db h = ground arith

datafile_save-raise :
    (row : DataFileRow) (db : Db) {e : Error}
    → (DatafileDal.save row db).0 ≡ raise e
    → (DatafileDal.save row db).1 ≡ db
unfolding DatafileDal.save
datafile_save-raise row db h = ground arith

dataversion_save-raise :
    (row : DataVersionRow) (db : Db) {e : Error}
    → (DataversionDal.save row db).0 ≡ raise e
    → (DataversionDal.save row db).1 ≡ db
unfolding DataversionDal.save
dataversion_save-raise row db h = ground arith

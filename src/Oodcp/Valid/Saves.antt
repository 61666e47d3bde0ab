-- ===== src/Oodcp/Valid/Saves.antt =====
-- The three upserts keep the constraints, whether they return or raise.
use dvc.Base.{
  String, ◌≡◌, refl, ap, ◌∙◌, sym, true, false, not, ◌&&◌, Option, none, some, List, [], ◌∷◌, ◌++◌,
  ◌==◌, string_eq, nat_eq, pair_eq, contains, any, find, update, All, Keeps, Bool-cases,
  Option-cases, inl, inr, arith, contains-map, map-update, map-snoc, contains-append, find-none,
  find_key, find_unique, ℕ, any_free, any_congr, pair-==, All-intro, Distinct-insert,
  Distinct-update, Distinct-rename, All-snoc, All-update, All-mono,
}
use dvc.Oodcp.Tables.{
  DataSetRow, DataFileRow, DataVersionRow, Db, IsValid, dataset_uuids, datafile_uuids,
  datafile_names, dataversion_uuids, dataversion_numbers, RefersTo,
}
use dvc.Oodcp.DatasetDal
use dvc.Oodcp.DatafileDal
use dvc.Oodcp.DataversionDal

abbrev ParentKnown : List String → List DataFileRow → Type 0
ParentKnown uuids = All (λ r. contains uuids r.dataset_uuid ≡ true)

contains-snoc :
    (ks : List String) (k j : String) → contains ks j ≡ true → contains (ks ++ k ∷ []) j ≡ true
contains-snoc ks k j h = ground (arith, contains-append ks (k ∷ []) j)

-- A row that is inserted has its own uuid and name.
dataset_insert-IsValid :
    (row : DataSetRow) (db : Db)
    → IsValid db
    → DatasetDal.name_taken row db.datasets ≡ false
    → any (λ r. row.uuid == r.uuid) db.datasets ≡ false
    → IsValid (record db { datasets = db.datasets ++ row ∷ [] })
dataset_insert-IsValid row db v named absent = record {
  dataset_uuid =
      Distinct-insert (λ r. r.uuid) db.datasets row (contains-map _ db.datasets row.uuid ∙ absent)
        v.dataset_uuid;
  dataset_name =
      Distinct-insert (λ r. r.name) db.datasets row
        (contains-map _ db.datasets row.name
          ∙ any_free (λ r. row.uuid == r.uuid) _ db.datasets named absent)
        v.dataset_name;
  datafile_uuid = v.datafile_uuid;
  datafile_name = v.datafile_name;
  dataversion_uuid = v.dataversion_uuid;
  dataversion_number = v.dataversion_number;
  datafile_parent =
      All-mono _ db.datafiles (λ r h. rw map-snoc (contains-snoc _ row.uuid r.dataset_uuid h))
        v.datafile_parent;
  dataversion_parent = v.dataversion_parent;
  dataversion_source = v.dataversion_source;
}

dataset_update-IsValid :
    (row : DataSetRow) (db : Db)
    → IsValid db
    → DatasetDal.name_taken row db.datasets ≡ false
    → IsValid (record db {
      datasets = update (λ r. row.uuid == r.uuid) (DatasetDal.updated row) db.datasets;
    })
dataset_update-IsValid row db v named = record {
  dataset_uuid = Distinct-update (λ r. r.uuid) _ _ db.datasets (λ r. refl) v.dataset_uuid;
  dataset_name =
      Distinct-rename (λ r. r.uuid) (λ r. r.name) row.uuid (DatasetDal.updated row) row.name
        db.datasets v.dataset_uuid v.dataset_name (All-intro _ db.datasets (λ r _. refl)) named;
  datafile_uuid = v.datafile_uuid;
  datafile_name = v.datafile_name;
  dataversion_uuid = v.dataversion_uuid;
  dataversion_number = v.dataversion_number;
  datafile_parent =
      rw
        (map-update (λ (r : DataSetRow). r.uuid) (λ r. row.uuid == r.uuid) (DatasetDal.updated row)
          db.datasets (λ r. refl))
        v.datafile_parent;
  dataversion_parent = v.dataversion_parent;
  dataversion_source = v.dataversion_source;
}

-- Saving a dataset keeps the constraints.
pub dataset_save-IsValid : (row : DataSetRow) → Keeps IsValid (DatasetDal.save row)
unfolding DatasetDal.save
dataset_save-IsValid row db v = elim (Bool-cases (DatasetDal.name_taken row db.datasets)) [
  | inl taken ↦ rw taken v
  | inr named ↦ elim (Bool-cases (any (λ r. row.uuid == r.uuid) db.datasets)) [
    | inl there ↦ rw (named, there) (dataset_update-IsValid row db v named)
    | inr absent ↦ rw (named, absent) (dataset_insert-IsValid row db v named absent)
  ]
]

-- The test on two columns is the one on their pair.
datafile_name-contains :
    (rows : List DataFileRow) (d n : String)
    → contains (datafile_names rows) (d, n) ≡ any (λ r. d == r.dataset_uuid && n == r.name) rows
datafile_name-contains rows d n =
    contains-map (λ r. (r.dataset_uuid, r.name)) rows (d, n)
    ∙ any_congr _ _ rows (λ r. pair-== d r.dataset_uuid n r.name)

datafile_insert-IsValid :
    (row : DataFileRow) (db : Db)
    → IsValid db
    → DatafileDal.name_taken row db.datafiles ≡ false
    → contains (datafile_uuids db.datafiles) row.uuid ≡ false
    → contains (dataset_uuids db.datasets) row.dataset_uuid ≡ true
    → IsValid (record db { datafiles = db.datafiles ++ row ∷ [] })
datafile_insert-IsValid row db v named absent parent = record {
  dataset_uuid = v.dataset_uuid;
  dataset_name = v.dataset_name;
  datafile_uuid = Distinct-insert (λ r. r.uuid) db.datafiles row absent v.datafile_uuid;
  datafile_name =
      Distinct-insert (λ r. (r.dataset_uuid, r.name)) db.datafiles row
        (datafile_name-contains db.datafiles row.dataset_uuid row.name
          ∙ any_free (λ r. row.uuid == r.uuid) _ db.datafiles named
              (sym (contains-map (λ r. r.uuid) db.datafiles row.uuid) ∙ absent))
        v.datafile_name;
  dataversion_uuid = v.dataversion_uuid;
  dataversion_number = v.dataversion_number;
  datafile_parent = All-snoc _ db.datafiles row v.datafile_parent parent;
  dataversion_parent =
      All-mono _ db.dataversions (λ r h. rw map-snoc (contains-snoc _ row.uuid r.datafile_uuid h))
        v.dataversion_parent;
  dataversion_source = v.dataversion_source;
}

datafile_rewrite-IsValid :
    (row old : DataFileRow) (db : Db)
    → IsValid db
    → find (λ r. old.uuid == r.uuid) db.datafiles ≡ some old
    → DatafileDal.name_taken (DatafileDal.updated row old) db.datafiles ≡ false
    → IsValid (record db {
      datafiles = update (λ r. old.uuid == r.uuid) (DatafileDal.updated row) db.datafiles;
    })
datafile_rewrite-IsValid row old db v found named = record {
  dataset_uuid = v.dataset_uuid;
  dataset_name = v.dataset_name;
  datafile_uuid = Distinct-update (λ r. r.uuid) _ _ db.datafiles (λ r. refl) v.datafile_uuid;
  datafile_name =
      Distinct-rename (λ r. r.uuid) (λ r. (r.dataset_uuid, r.name)) old.uuid
        (DatafileDal.updated row) (old.dataset_uuid, row.name) db.datafiles v.datafile_uuid
        v.datafile_name
        (All-mono _ db.datafiles
          (λ r h p. ap (λ (t : DataFileRow). (t.dataset_uuid, row.name)) (h p))
          (find_unique (λ r. r.uuid) db.datafiles old.uuid found v.datafile_uuid))
        (any_congr _ _ db.datafiles (λ r.
            ap (λ b. not (old.uuid == r.uuid) && b)
              (pair-== old.dataset_uuid r.dataset_uuid row.name r.name))
          ∙ named);
  dataversion_uuid = v.dataversion_uuid;
  dataversion_number = v.dataversion_number;
  datafile_parent =
      All-update _ (λ r. old.uuid == r.uuid) (DatafileDal.updated row) db.datafiles (λ r h. h)
        v.datafile_parent;
  dataversion_parent =
      rw
        (map-update (λ (r : DataFileRow). r.uuid) (λ r. old.uuid == r.uuid)
          (DatafileDal.updated row) db.datafiles (λ r. refl))
        v.dataversion_parent;
  dataversion_source = v.dataversion_source;
}

-- Saving a datafile keeps the constraints.
pub datafile_save-IsValid : (row : DataFileRow) → Keeps IsValid (DatafileDal.save row)
unfolding DatafileDal.save
datafile_save-IsValid row db v = elim (Option-cases (find (λ r. row.uuid == r.uuid) db.datafiles)) [
  | inl absent ↦
      rw (absent, DatafileDal.save)
        (inserted (find-none (λ r. r.uuid) db.datafiles row.uuid absent))
  | inr (old, found) ↦
      rw (found, DatafileDal.save)
        (rewritten old (find_key (λ r. r.uuid) db.datafiles row.uuid found) found)
]
  where
    inserted :
        contains (datafile_uuids db.datafiles) row.uuid ≡ false
        → IsValid (DatafileDal.insert row db).1
    inserted absent = elim (Bool-cases (DatafileDal.name_taken row db.datafiles)) [
      | inl taken ↦ rw taken v
      | inr named ↦ elim (Bool-cases (contains (dataset_uuids db.datasets) row.dataset_uuid)) [
        | inl parent ↦ rw (named, parent) (datafile_insert-IsValid row db v named absent parent)
        | inr orphan ↦ rw (named, orphan) v
      ]
    ]

    rewritten :
        (old : DataFileRow)
        → row.uuid ≡ old.uuid
        → find (λ r. row.uuid == r.uuid) db.datafiles ≡ some old
        → IsValid (DatafileDal.rewrite row old db).1
    rewritten old same found =
        elim (Bool-cases (DatafileDal.name_taken (DatafileDal.updated row old) db.datafiles)) [
          | inl taken ↦ rw taken v
          | inr named ↦ rw named (datafile_rewrite-IsValid row old db v (rw same at found) named)
        ]

dataversion_number-contains :
    (rows : List DataVersionRow) (f : String) (n : ℕ)
    → contains (dataversion_numbers rows) (f, n)
      ≡ any (λ r. f == r.datafile_uuid && n == r.version_number) rows
dataversion_number-contains rows f n =
    contains-map (λ r. (r.datafile_uuid, r.version_number)) rows (f, n)
    ∙ any_congr _ _ rows (λ r. pair-== f r.datafile_uuid n r.version_number)

-- The source that the test finds is in the table once the row is.
source_known-RefersTo :
    (row : DataVersionRow) (rows : List DataVersionRow) (s : Option String)
    → row.source_version_uuid ≡ s
    → DataversionDal.source_known row rows ≡ true
    → RefersTo (dataversion_uuids rows ++ row.uuid ∷ []) s
source_known-RefersTo row rows none e h = tt
source_known-RefersTo row rows (some u) e h =
    ground (arith, contains-append (dataversion_uuids rows) (row.uuid ∷ []) u)

RefersTo-snoc :
    (uuids : List String) (k : String) (s : Option String)
    → RefersTo uuids s
    → RefersTo (uuids ++ k ∷ []) s
RefersTo-snoc uuids k none h = tt
RefersTo-snoc uuids k (some u) h = contains-snoc uuids k u h

dataversion_insert-IsValid :
    (row : DataVersionRow) (db : Db)
    → IsValid db
    → DataversionDal.number_taken row db.dataversions ≡ false
    → any (λ r. row.uuid == r.uuid) db.dataversions ≡ false
    → contains (datafile_uuids db.datafiles) row.datafile_uuid ≡ true
    → DataversionDal.source_known row db.dataversions ≡ true
    → IsValid (record db { dataversions = db.dataversions ++ row ∷ [] })
dataversion_insert-IsValid row db v numbered absent parent source = record {
  dataset_uuid = v.dataset_uuid;
  dataset_name = v.dataset_name;
  datafile_uuid = v.datafile_uuid;
  datafile_name = v.datafile_name;
  dataversion_uuid =
      Distinct-insert (λ r. r.uuid) db.dataversions row
        (contains-map _ db.dataversions row.uuid ∙ absent) v.dataversion_uuid;
  dataversion_number =
      Distinct-insert (λ r. (r.datafile_uuid, r.version_number)) db.dataversions row
        (dataversion_number-contains db.dataversions row.datafile_uuid row.version_number
          ∙ numbered)
        v.dataversion_number;
  datafile_parent = v.datafile_parent;
  dataversion_parent = All-snoc _ db.dataversions row v.dataversion_parent parent;
  dataversion_source = rw map-snoc (
      All-snoc _ db.dataversions row
        (All-mono _ db.dataversions
          (λ r h.
            RefersTo-snoc (dataversion_uuids db.dataversions) row.uuid r.source_version_uuid h)
          v.dataversion_source)
        (source_known-RefersTo row db.dataversions row.source_version_uuid refl source));
}

dataversion_update-IsValid :
    (row : DataVersionRow) (db : Db)
    → IsValid db
    → IsValid (record db {
      dataversions = update (λ r. row.uuid == r.uuid) (DataversionDal.updated row) db.dataversions;
    })
dataversion_update-IsValid row db v = record {
  dataset_uuid = v.dataset_uuid;
  dataset_name = v.dataset_name;
  datafile_uuid = v.datafile_uuid;
  datafile_name = v.datafile_name;
  dataversion_uuid =
      Distinct-update (λ r. r.uuid) _ _ db.dataversions (λ r. refl) v.dataversion_uuid;
  dataversion_number =
      Distinct-update (λ r. (r.datafile_uuid, r.version_number)) (λ r. row.uuid == r.uuid)
        (DataversionDal.updated row) db.dataversions (λ r. refl) v.dataversion_number;
  datafile_parent = v.datafile_parent;
  dataversion_parent =
      All-update _ (λ r. row.uuid == r.uuid) (DataversionDal.updated row) db.dataversions (λ r h. h)
        v.dataversion_parent;
  dataversion_source =
      rw
        (map-update (λ (r : DataVersionRow). r.uuid) (λ r. row.uuid == r.uuid)
          (DataversionDal.updated row) db.dataversions (λ r. refl))
        (All-update _ (λ r. row.uuid == r.uuid) (DataversionDal.updated row) db.dataversions
          (λ r h. h) v.dataversion_source);
}

-- Saving a version keeps the constraints.
pub dataversion_save-IsValid : (row : DataVersionRow) → Keeps IsValid (DataversionDal.save row)
unfolding DataversionDal.save
dataversion_save-IsValid row db v =
    elim (Bool-cases (any (λ r. row.uuid == r.uuid) db.dataversions)) [
      | inl there ↦ rw there (dataversion_update-IsValid row db v)
      | inr absent ↦ rw absent (inserted absent)
    ]
  where
    inserted :
        any (λ r. row.uuid == r.uuid) db.dataversions ≡ false
        → IsValid (DataversionDal.insert row db).1
    inserted absent = elim (Bool-cases (DataversionDal.number_taken row db.dataversions)) [
      | inl taken ↦ rw taken v
      | inr numbered ↦
          elim (Bool-cases (contains (datafile_uuids db.datafiles) row.datafile_uuid)) [
            | inr orphan ↦ rw (numbered, orphan) v
            | inl parent ↦ elim (Bool-cases (DataversionDal.source_known row db.dataversions)) [
              | inr unknown ↦ rw (numbered, parent, unknown) v
              | inl source ↦
                  rw (numbered, parent, source)
                    (dataversion_insert-IsValid row db v numbered absent parent source)
            ]
          ]
    ]

-- ===== src/Oodcp/Valid/Readable.antt =====
-- Every row that the repository stores reads back as an entity.
use dvc.Base.{
  ◌≡◌, refl, true, none, some, ◌==◌, string_eq, given, find, any, All, All-snoc, All-update,
  Bool-cases, Option-cases, inl, inr, return, contains, Keeps, given-some, ◌&&◌,
}
use dvc.Oodcp.Values.{
  entity_status, version_status, storage_type_of, entity_status-value, version_status-value,
  storage_type_of-value,
}
use dvc.Oodcp.Entities.{Codec, IsFaithful, DataSet, DataFile, DataVersion}
use dvc.Oodcp.Tables.{DataSetRow, DataFileRow, DataVersionRow, Db, dataset_uuids, datafile_uuids}
use dvc.Oodcp.Convert.{
  version_cls, dataset_to_dict, dataset_from_dict, datafile_to_dict, datafile_from_dict,
  dataversion_to_dict, dataversion_from_dict,
}
use dvc.Oodcp.DatasetDal
use dvc.Oodcp.DatafileDal
use dvc.Oodcp.DataversionDal

-- The readers of the columns accept the text.
pub record DatasetReads (c : Codec) (r : DataSetRow) : Type 0 where
  pub status : given (entity_status r.status) ≡ true
  pub created_at : given (c.fromisoformat r.created_at) ≡ true
  pub updated_at : given (c.fromisoformat r.updated_at) ≡ true
  pub shared_metadata : given (c.loads r.shared_metadata) ≡ true

pub record DatafileReads (c : Codec) (r : DataFileRow) : Type 0 where
  pub status : given (entity_status r.status) ≡ true
  pub created_at : given (c.fromisoformat r.created_at) ≡ true
  pub updated_at : given (c.fromisoformat r.updated_at) ≡ true

pub record DataversionReads (c : Codec) (r : DataVersionRow) : Type 0 where
  pub storage_type : given (storage_type_of r.storage_type) ≡ true
  pub metadata : given (c.loads r.metadata) ≡ true
  pub status : given (version_status r.status) ≡ true
  pub created_at : given (c.fromisoformat r.created_at) ≡ true
  pub updated_at : given (c.fromisoformat r.updated_at) ≡ true

pub record IsReadable (c : Codec) (db : Db) : Type 0 where
  pub datasets : All (DatasetReads c) db.datasets
  pub datafiles : All (DatafileReads c) db.datafiles
  pub dataversions : All (DataversionReads c) db.dataversions

module _ (c : Codec) where
  -- A row whose columns read gives a version with the columns as they are.
  pub dataversion_from_dict-return :
      (r : DataVersionRow)
      → DataversionReads c r
      → (v : DataVersion c) × (dataversion_from_dict c r ≡ return v)
        × (v.uuid ≡ r.uuid)
        × (version_status r.status ≡ some v.status)
  unfolding dataversion_from_dict
  dataversion_from_dict-return r h =
      let (st, e_type) = given-some (storage_type_of r.storage_type) h.storage_type in
      let (metadata, e_metadata) = given-some (c.loads r.metadata) h.metadata in
      let (status, e_status) = given-some (version_status r.status) h.status in
      let (created_at, e_created) = given-some (c.fromisoformat r.created_at) h.created_at in
      let (updated_at, e_updated) = given-some (c.fromisoformat r.updated_at) h.updated_at in
      (
        record {
          class = version_cls st;
          uuid = r.uuid;
          datafile_uuid = r.datafile_uuid;
          version_number = r.version_number;
          dvc_hash = r.dvc_hash;
          hash_algorithm = r.hash_algorithm;
          storage_uri = r.storage_uri;
          status = status;
          source_version_uuid = r.source_version_uuid;
          transformer = r.transformer;
          metadata = metadata;
          created_at = created_at;
          updated_at = updated_at;
          storage_gateway = none;
        },
        rw (e_type, e_metadata, e_status, e_created, e_updated),
        refl,
        e_status,
      )

  pub datafile_from_dict-return :
      (r : DataFileRow)
      → DatafileReads c r
      → (v : DataFile c) × (datafile_from_dict c r ≡ return v)
        × (v.uuid ≡ r.uuid)
        × (entity_status r.status ≡ some v.status)
  unfolding datafile_from_dict
  datafile_from_dict-return r h =
      let (status, e_status) = given-some (entity_status r.status) h.status in
      let (created_at, e_created) = given-some (c.fromisoformat r.created_at) h.created_at in
      let (updated_at, e_updated) = given-some (c.fromisoformat r.updated_at) h.updated_at in
      (
        record {
          uuid = r.uuid;
          dataset_uuid = r.dataset_uuid;
          name = r.name;
          description = r.description;
          owner = r.owner;
          status = status;
          created_at = created_at;
          updated_at = updated_at;
        },
        rw (e_status, e_created, e_updated),
        refl,
        e_status,
      )

  pub dataset_from_dict-return :
      (r : DataSetRow)
      → DatasetReads c r
      → (v : DataSet c) × (dataset_from_dict c r ≡ return v) × (v.uuid ≡ r.uuid)
  unfolding dataset_from_dict
  dataset_from_dict-return r h =
      let (status, e_status) = given-some (entity_status r.status) h.status in
      let (created_at, e_created) = given-some (c.fromisoformat r.created_at) h.created_at in
      let (updated_at, e_updated) = given-some (c.fromisoformat r.updated_at) h.updated_at in
      let (shared_metadata, e_shared) = given-some (c.loads r.shared_metadata) h.shared_metadata in
      (
        record {
          uuid = r.uuid;
          name = r.name;
          description = r.description;
          project = r.project;
          owner = r.owner;
          status = status;
          created_at = created_at;
          updated_at = updated_at;
          shared_metadata = shared_metadata;
        },
        rw (e_status, e_created, e_updated, e_shared),
        refl,
      )

-- A save of a row that reads keeps the tables readable.
module _ (c : Codec) where
  pub dataset_save-IsReadable :
      (row : DataSetRow) → DatasetReads c row → Keeps (IsReadable c) (DatasetDal.save row)
  unfolding DatasetDal.save
  dataset_save-IsReadable row w db h = elim (Bool-cases (DatasetDal.name_taken row db.datasets)) [
    | inl taken ↦ rw taken h
    | inr named ↦ elim (Bool-cases (any (λ r. row.uuid == r.uuid) db.datasets)) [
      | inr absent ↦
          rw (named, absent)
            (record {
              datasets = All-snoc _ db.datasets row h.datasets w;
              datafiles = h.datafiles;
              dataversions = h.dataversions;
            })
      | inl there ↦
          rw (named, there)
            (record {
              datasets =
                  All-update _ (λ r. row.uuid == r.uuid) (DatasetDal.updated row) db.datasets
                    (λ r o. record {
                      status = w.status;
                      created_at = o.created_at;
                      updated_at = w.updated_at;
                      shared_metadata = w.shared_metadata;
                    })
                    h.datasets;
              datafiles = h.datafiles;
              dataversions = h.dataversions;
            })
    ]
  ]

  pub datafile_save-IsReadable :
      (row : DataFileRow) → DatafileReads c row → Keeps (IsReadable c) (DatafileDal.save row)
  unfolding DatafileDal.save
  datafile_save-IsReadable row w db h =
      elim (Option-cases (find (λ r. row.uuid == r.uuid) db.datafiles)) [
        | inl absent ↦ rw (absent, DatafileDal.save) inserted
        | inr (old, found) ↦ rw (found, DatafileDal.save) (rewritten old)
      ]
    where
      inserted : IsReadable c (DatafileDal.insert row db).1
      inserted = elim (Bool-cases (DatafileDal.name_taken row db.datafiles)) [
        | inl taken ↦ rw taken h
        | inr named ↦ elim (Bool-cases (contains (dataset_uuids db.datasets) row.dataset_uuid)) [
          | inr orphan ↦ rw (named, orphan) h
          | inl parent ↦
              rw (named, parent)
                (record {
                  datasets = h.datasets;
                  datafiles = All-snoc _ db.datafiles row h.datafiles w;
                  dataversions = h.dataversions;
                })
        ]
      ]

      rewritten : (old : DataFileRow) → IsReadable c (DatafileDal.rewrite row old db).1
      rewritten old =
          elim (Bool-cases (DatafileDal.name_taken (DatafileDal.updated row old) db.datafiles)) [
            | inl taken ↦ rw taken h
            | inr named ↦ rw named (record {
              datasets = h.datasets;
              datafiles =
                  All-update _ (λ r. old.uuid == r.uuid) (DatafileDal.updated row) db.datafiles
                    (λ r o. record {
                      status = w.status;
                      created_at = o.created_at;
                      updated_at = w.updated_at;
                    })
                    h.datafiles;
              dataversions = h.dataversions;
            })
          ]

  pub dataversion_save-IsReadable :
      (row : DataVersionRow)
      → DataversionReads c row
      → Keeps (IsReadable c) (DataversionDal.save row)
  unfolding DataversionDal.save
  dataversion_save-IsReadable row w db h =
      elim (Bool-cases (any (λ r. row.uuid == r.uuid) db.dataversions)) [
        | inl there ↦ rw there (record {
          datasets = h.datasets;
          datafiles = h.datafiles;
          dataversions =
              All-update _ (λ r. row.uuid == r.uuid) (DataversionDal.updated row) db.dataversions
                (λ r o. record {
                  storage_type = o.storage_type;
                  metadata = w.metadata;
                  status = w.status;
                  created_at = o.created_at;
                  updated_at = w.updated_at;
                })
                h.dataversions;
        })
        | inr absent ↦ rw absent inserted
      ]
    where
      inserted : IsReadable c (DataversionDal.insert row db).1
      inserted = elim (Bool-cases (DataversionDal.number_taken row db.dataversions)) [
        | inl taken ↦ rw taken h
        | inr numbered ↦
            elim (Bool-cases (
              contains (datafile_uuids db.datafiles) row.datafile_uuid
              && DataversionDal.source_known row db.dataversions)) [
                | inr unknown ↦ rw (numbered, unknown) h
                | inl known ↦
                    rw (numbered, known)
                      (record {
                        datasets = h.datasets;
                        datafiles = h.datafiles;
                        dataversions = All-snoc _ db.dataversions row h.dataversions w;
                      })
              ]
      ]

-- What the repository writes reads.
module _ (c : Codec) (f : IsFaithful c) where
  open f use {fromisoformat-isoformat, loads-dumps}

  pub dataset_to_dict-Reads : (d : DataSet c) → DatasetReads c (dataset_to_dict c d)
  unfolding dataset_to_dict
  dataset_to_dict-Reads d = record {
    status = rw entity_status-value;
    created_at = rw fromisoformat-isoformat;
    updated_at = rw fromisoformat-isoformat;
    shared_metadata = rw loads-dumps;
  }

  pub datafile_to_dict-Reads : (d : DataFile c) → DatafileReads c (datafile_to_dict c d)
  unfolding datafile_to_dict
  datafile_to_dict-Reads d = record {
    status = rw entity_status-value;
    created_at = rw fromisoformat-isoformat;
    updated_at = rw fromisoformat-isoformat;
  }

  pub dataversion_to_dict-Reads : (v : DataVersion c) → DataversionReads c (dataversion_to_dict c v)
  unfolding dataversion_to_dict
  dataversion_to_dict-Reads v = record {
    storage_type = rw storage_type_of-value;
    metadata = rw loads-dumps;
    status = rw version_status-value;
    created_at = rw fromisoformat-isoformat;
    updated_at = rw fromisoformat-isoformat;
  }

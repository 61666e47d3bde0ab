-- ===== src/Oodcp/Convert.antt =====
-- The serialization helpers of dvc/oodcp/data/datarepo_sqlite.py, and the reading of the whole rows
-- that they write.
use dvc.Base.{◌≡◌, refl, none, Result, return, or_raise}
use dvc.Oodcp.Values.{
  StorageType, s3, gcs, azure, local, Error, value_error, entity_status_value, entity_status,
  version_status_value, version_status, storage_type_value, storage_type_of, entity_status-value,
  version_status-value, storage_type_of-value,
}
use dvc.Oodcp.Entities.{
  Codec, IsFaithful, DataSet, DataFile, DataVersion, VersionClass, s3_data_version,
  gcs_data_version, azure_data_version, local_data_version, storage_type,
}
use dvc.Oodcp.Tables.{DataSetRow, DataFileRow, DataVersionRow}

-- `_VERSION_CLS_MAP`
unfoldable pub version_cls : StorageType → VersionClass
version_cls s3 = s3_data_version
version_cls gcs = gcs_data_version
version_cls azure = azure_data_version
version_cls local = local_data_version

module _ (c : Codec) where
  unfoldable pub dataset_to_dict : DataSet c → DataSetRow
  dataset_to_dict dataset = record {
    uuid = dataset.uuid;
    name = dataset.name;
    description = dataset.description;
    project = dataset.project;
    owner = dataset.owner;
    status = entity_status_value dataset.status;
    created_at = c.isoformat dataset.created_at;
    updated_at = c.isoformat dataset.updated_at;
    shared_metadata = c.dumps dataset.shared_metadata;
  }

  unfoldable pub dataset_from_dict : DataSetRow → Result Error (DataSet c)
  dataset_from_dict row = or_raise value_error (entity_status row.status) λ status.
      or_raise value_error (c.fromisoformat row.created_at) λ created_at.
        or_raise value_error (c.fromisoformat row.updated_at) λ updated_at.
          or_raise value_error (c.loads row.shared_metadata) λ shared_metadata. return (record {
            uuid = row.uuid;
            name = row.name;
            description = row.description;
            project = row.project;
            owner = row.owner;
            status = status;
            created_at = created_at;
            updated_at = updated_at;
            shared_metadata = shared_metadata;
          })

  unfoldable pub datafile_to_dict : DataFile c → DataFileRow
  datafile_to_dict datafile = record {
    uuid = datafile.uuid;
    dataset_uuid = datafile.dataset_uuid;
    name = datafile.name;
    description = datafile.description;
    owner = datafile.owner;
    status = entity_status_value datafile.status;
    created_at = c.isoformat datafile.created_at;
    updated_at = c.isoformat datafile.updated_at;
  }

  unfoldable pub datafile_from_dict : DataFileRow → Result Error (DataFile c)
  datafile_from_dict row = or_raise value_error (entity_status row.status) λ status.
      or_raise value_error (c.fromisoformat row.created_at) λ created_at.
        or_raise value_error (c.fromisoformat row.updated_at) λ updated_at. return (record {
          uuid = row.uuid;
          dataset_uuid = row.dataset_uuid;
          name = row.name;
          description = row.description;
          owner = row.owner;
          status = status;
          created_at = created_at;
          updated_at = updated_at;
        })

  unfoldable pub dataversion_to_dict : DataVersion c → DataVersionRow
  dataversion_to_dict version = record {
    uuid = version.uuid;
    datafile_uuid = version.datafile_uuid;
    version_number = version.version_number;
    dvc_hash = version.dvc_hash;
    hash_algorithm = version.hash_algorithm;
    storage_uri = version.storage_uri;
    storage_type = storage_type_value (storage_type version.class);
    status = version_status_value version.status;
    source_version_uuid = version.source_version_uuid;
    transformer = version.transformer;
    metadata = c.dumps version.metadata;
    created_at = c.isoformat version.created_at;
    updated_at = c.isoformat version.updated_at;
  }

  -- A version that is read back has no gateway.
  unfoldable pub dataversion_from_dict : DataVersionRow → Result Error (DataVersion c)
  dataversion_from_dict row = or_raise value_error (storage_type_of row.storage_type) λ st.
      or_raise value_error (c.loads row.metadata) λ metadata.
        or_raise value_error (version_status row.status) λ status.
          or_raise value_error (c.fromisoformat row.created_at) λ created_at.
            or_raise value_error (c.fromisoformat row.updated_at) λ updated_at. return (record {
              class = version_cls st;
              uuid = row.uuid;
              datafile_uuid = row.datafile_uuid;
              version_number = row.version_number;
              dvc_hash = row.dvc_hash;
              hash_algorithm = row.hash_algorithm;
              storage_uri = row.storage_uri;
              status = status;
              source_version_uuid = row.source_version_uuid;
              transformer = row.transformer;
              metadata = metadata;
              created_at = created_at;
              updated_at = updated_at;
              storage_gateway = none;
            })

version_cls-storage_type : (k : VersionClass) → version_cls (storage_type k) ≡ k
unfolding version_cls storage_type
version_cls-storage_type s3_data_version = refl
version_cls-storage_type gcs_data_version = refl
version_cls-storage_type azure_data_version = refl
version_cls-storage_type local_data_version = refl

module _ (c : Codec) (f : IsFaithful c) where
  open f use {fromisoformat-isoformat, loads-dumps}

  -- A dataset's row reads back as the dataset, where the codec reads what it writes.
  pub dataset_from_dict-to_dict :
      (d : DataSet c) → dataset_from_dict c (dataset_to_dict c d) ≡ return d
  unfolding dataset_from_dict dataset_to_dict
  dataset_from_dict-to_dict d = simp (entity_status-value, fromisoformat-isoformat, loads-dumps)

  -- A datafile's row reads back as the datafile.
  pub datafile_from_dict-to_dict :
      (d : DataFile c) → datafile_from_dict c (datafile_to_dict c d) ≡ return d
  unfolding datafile_from_dict datafile_to_dict
  datafile_from_dict-to_dict d = simp (entity_status-value, fromisoformat-isoformat)

  -- A version's row reads back as the version, in its own class and without its gateway, where the
  -- codec reads what it writes.
  pub dataversion_from_dict-to_dict :
      (v : DataVersion c)
      → dataversion_from_dict c (dataversion_to_dict c v)
        ≡ return (record v { storage_gateway = none })
  unfolding dataversion_from_dict dataversion_to_dict
  dataversion_from_dict-to_dict v = simp (
    storage_type_of-value, version_cls-storage_type, version_status-value, fromisoformat-isoformat,
    loads-dumps,
  )

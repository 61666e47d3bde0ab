-- ===== src/Oodcp/DataRepo.antt =====
-- The repository operations of dvc/oodcp/data/datarepo_sqlite.py, over the tables of the open
-- connection. An operation that writes commits, and one that raises has written nothing.
use dvc.Base.{ℕ, String, Bool, Option, List, Exec, gets, traverse, traverse_option}
use dvc.Oodcp.Values.{Error}
use dvc.Oodcp.Entities.{Codec, DataSet, DataFile, DataVersion}
use dvc.Oodcp.Tables.{Db}
use dvc.Oodcp.DatasetDal
use dvc.Oodcp.DatafileDal
use dvc.Oodcp.DataversionDal
use dvc.Oodcp.Convert.{
  dataset_to_dict, dataset_from_dict, datafile_to_dict, datafile_from_dict, dataversion_to_dict,
  dataversion_from_dict,
}

module _ (c : Codec) where
  unfoldable pub add_dataset : DataSet c → Exec Error Db (Unit {0})
  add_dataset dataset = DatasetDal.save (dataset_to_dict c dataset)

  unfoldable pub get_dataset : String → Exec Error Db (Option (DataSet c))
  get_dataset uuid db = (traverse_option (dataset_from_dict c) (DatasetDal.get uuid db), db)

  unfoldable pub get_dataset_by_name : String → Exec Error Db (Option (DataSet c))
  get_dataset_by_name name db =
      (traverse_option (dataset_from_dict c) (DatasetDal.get_by_name name db), db)

  unfoldable pub list_datasets : Bool → Exec Error Db (List (DataSet c))
  list_datasets include_deleted db =
      (traverse (dataset_from_dict c) (DatasetDal.list_all include_deleted db), db)

  unfoldable pub update_dataset : DataSet c → Exec Error Db (Unit {0})
  update_dataset dataset = DatasetDal.save (dataset_to_dict c dataset)

  unfoldable pub add_datafile : DataFile c → Exec Error Db (Unit {0})
  add_datafile datafile = DatafileDal.save (datafile_to_dict c datafile)

  unfoldable pub get_datafile : String → Exec Error Db (Option (DataFile c))
  get_datafile uuid db = (traverse_option (datafile_from_dict c) (DatafileDal.get uuid db), db)

  unfoldable pub get_datafile_by_name : String → String → Exec Error Db (Option (DataFile c))
  get_datafile_by_name dataset_uuid name db =
      (traverse_option (datafile_from_dict c) (DatafileDal.get_by_name dataset_uuid name db), db)

  unfoldable pub list_datafiles : String → Bool → Exec Error Db (List (DataFile c))
  list_datafiles dataset_uuid include_deleted db = (
    traverse (datafile_from_dict c) (DatafileDal.list_for_dataset dataset_uuid include_deleted db),
    db,
  )

  unfoldable pub update_datafile : DataFile c → Exec Error Db (Unit {0})
  update_datafile datafile = DatafileDal.save (datafile_to_dict c datafile)

  unfoldable pub add_dataversion : DataVersion c → Exec Error Db (Unit {0})
  add_dataversion version = DataversionDal.save (dataversion_to_dict c version)

  unfoldable pub get_dataversion : String → Exec Error Db (Option (DataVersion c))
  get_dataversion uuid db =
      (traverse_option (dataversion_from_dict c) (DataversionDal.get uuid db), db)

  unfoldable pub get_latest_dataversion : String → Exec Error Db (Option (DataVersion c))
  get_latest_dataversion datafile_uuid db =
      (traverse_option (dataversion_from_dict c) (DataversionDal.get_latest datafile_uuid db), db)

  unfoldable pub list_dataversions : String → Bool → Exec Error Db (List (DataVersion c))
  list_dataversions datafile_uuid include_deleted db = (
    traverse (dataversion_from_dict c)
        (DataversionDal.list_for_datafile datafile_uuid include_deleted db),
    db,
  )

  unfoldable pub update_dataversion : DataVersion c → Exec Error Db (Unit {0})
  update_dataversion version = DataversionDal.save (dataversion_to_dict c version)

  unfoldable pub query_lineage : String → ℕ → Exec Error Db (List (DataVersion c))
  query_lineage version_uuid depth db = (
    traverse (dataversion_from_dict c) (DataversionDal.get_lineage_chain version_uuid depth db),
    db,
  )

unfoldable pub get_next_version_number : String → Exec Error Db ℕ
get_next_version_number datafile_uuid = gets (DataversionDal.get_next_version_number datafile_uuid)

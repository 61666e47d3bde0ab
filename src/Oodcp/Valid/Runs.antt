-- ===== src/Oodcp/Valid/Runs.antt =====
-- Every call that writes keeps the constraints, and so does a run of calls.
use dvc.Base.{
  ℕ, String, true, false, Option, none, some, List, [], ◌∷◌, Keeps, Keeps-and_then, Keeps-bind,
  Bool-cases, inl, inr,
}
use dvc.Oodcp.Values.{text, number}
use dvc.Oodcp.Valid.Readable.{
  IsReadable, dataset_save-IsReadable, datafile_save-IsReadable, dataversion_save-IsReadable,
  dataset_to_dict-Reads, datafile_to_dict-Reads, dataversion_to_dict-Reads,
}
use dvc.Oodcp.Entities.{Codec, IsFaithful, StorageGateway, DataSet, DataFile, DataVersion, Defaults}
use dvc.Oodcp.Tables.{Db, IsValid}
use dvc.Oodcp.DataRepo
use dvc.Oodcp.Dataset
use dvc.Oodcp.Datafile
use dvc.Oodcp.Datafile.{VersionArgs}
use dvc.Oodcp.Trace.{Call, empty_db, perform, run}
use dvc.Oodcp.Valid.Saves.{dataset_save-IsValid, datafile_save-IsValid, dataversion_save-IsValid}

-- A property that every save of an entity keeps is kept by every call.
module _ (c : Codec) (P : Db → Type 0)
    (dataset_kept : (ds : DataSet c) → Keeps P (DataRepo.add_dataset c ds))
    (datafile_kept : (df : DataFile c) → Keeps P (DataRepo.add_datafile c df))
    (dataversion_kept : (v : DataVersion c) → Keeps P (DataRepo.add_dataversion c v)) where
  Keeps-addfile :
      (ds : DataSet c) (name description owner : String) (new : Defaults c)
      → Keeps P (Dataset.addfile c ds name description owner new)
  unfolding Dataset.addfile DataRepo.get_datafile_by_name
  Keeps-addfile ds name description owner new db v =
      Keeps-and_then (DataRepo.get_datafile_by_name c ds.uuid name db).0 _ registered db v
    where
      registered :
          (o : Option (DataFile c))
          → Keeps P (Dataset.register c (Dataset.new_file c ds name description owner new) o)
      registered none db v =
          Keeps-bind (DataRepo.add_datafile c _) _ (datafile_kept _) (λ _ s h. h) db v
      registered (some existing) db v = v

  Keeps-getfile : (ds : DataSet c) (name : String) → Keeps P (Dataset.getfile c ds (some name) none)
  unfolding Dataset.getfile DataRepo.get_datafile_by_name
  Keeps-getfile ds name db v =
      Keeps-and_then (DataRepo.get_datafile_by_name c ds.uuid name db).0 _ found db v
    where
      found : (o : Option (DataFile c)) → Keeps P (Dataset.found_file c (text name) o)
      found none db v = v
      found (some df) db v = v

  Keeps-delfile :
      (ds : DataSet c) (name : String) (now : c.Datetime) → Keeps P (Dataset.delfile c ds name now)
  unfolding Dataset.delfile DataRepo.update_datafile DataRepo.add_datafile
  Keeps-delfile ds name now = Keeps-bind _ _ (Keeps-getfile ds name) (λ df. datafile_kept _)

  Keeps-delete_files :
      (clock : String → c.Datetime) (files : List (DataFile c))
      → Keeps P (Dataset.delete_files c clock files)
  unfolding Dataset.delete_files DataRepo.update_datafile DataRepo.add_datafile
  Keeps-delete_files clock [] = λ db v. v
  Keeps-delete_files clock (df ∷ files) =
      Keeps-bind _ _ (datafile_kept _) (λ _. Keeps-delete_files clock files)

  Keeps-delallfiles :
      (ds : DataSet c) (clock : String → c.Datetime) → Keeps P (Dataset.delallfiles c ds clock)
  unfolding Dataset.delallfiles Dataset.listfiles DataRepo.list_datafiles
  Keeps-delallfiles ds clock db v =
      Keeps-and_then (DataRepo.list_datafiles c ds.uuid false db).0 _ (Keeps-delete_files clock) db
        v

  Keeps-store_version : (v : DataVersion c) → Keeps P (Datafile.store_version c v)
  Keeps-store_version v = Keeps-bind _ _ (dataversion_kept v) (λ _ s h. h)

  Keeps-addversion :
      (df : DataFile c) (gateway : StorageGateway) (args : VersionArgs c) (new : Defaults c)
      (now : c.Datetime)
      → Keeps P (Datafile.addversion c df gateway args new now)
  unfolding Datafile.addversion DataRepo.get_next_version_number
  Keeps-addversion df gateway args new now db v =
      elim (Bool-cases (Datafile.no_data c args.source_path args.dvc_hash)) [
        | inl e ↦ rw e v
        | inr e ↦ rw e (
            Keeps-and_then (Datafile.build_version c df gateway args new now _) _
              Keeps-store_version db v)
      ]

  Keeps-getversion : (df : DataFile c) (n : ℕ) → Keeps P (Datafile.getversion c df (some n) none)
  unfolding Datafile.getversion DataRepo.list_dataversions
  Keeps-getversion df n db v =
      Keeps-and_then (DataRepo.list_dataversions c df.uuid true db).0 _ found db v
    where
      found_one : (o : Option (DataVersion c)) → Keeps P (Datafile.found_version c (number n) o)
      found_one none db v = v
      found_one (some x) db v = v

      found :
          (versions : List (DataVersion c))
          → Keeps P (Datafile.found_version c (number n) (Datafile.of_number c (some n) versions))
      found versions = found_one _

  Keeps-delversion :
      (df : DataFile c) (n : ℕ) (now : c.Datetime) → Keeps P (Datafile.delversion c df n now)
  unfolding Datafile.delversion DataRepo.update_dataversion DataRepo.add_dataversion
  Keeps-delversion df n now = Keeps-bind _ _ (Keeps-getversion df n) (λ x. dataversion_kept _)

  Keeps-delete_versions :
      (clock : String → c.Datetime) (versions : List (DataVersion c))
      → Keeps P (Datafile.delete_versions c clock versions)
  unfolding Datafile.delete_versions DataRepo.update_dataversion DataRepo.add_dataversion
  Keeps-delete_versions clock [] = λ db v. v
  Keeps-delete_versions clock (x ∷ versions) =
      Keeps-bind _ _ (dataversion_kept _) (λ _. Keeps-delete_versions clock versions)

  Keeps-delallversions :
      (df : DataFile c) (clock : String → c.Datetime) → Keeps P (Datafile.delallversions c df clock)
  unfolding Datafile.delallversions Datafile.listversions DataRepo.list_dataversions
  Keeps-delallversions df clock db v =
      Keeps-and_then (DataRepo.list_dataversions c df.uuid false db).0 _
        (Keeps-delete_versions clock) db v

  Keeps-perform : (call : Call c) (db : Db) → P db → P (perform c call db)
  unfolding perform DataRepo.add_dataset DataRepo.update_dataset DataRepo.update_datafile
      DataRepo.update_dataversion DataRepo.add_datafile DataRepo.add_dataversion
  Keeps-perform (Call.add_dataset ds) = dataset_kept _
  Keeps-perform (Call.update_dataset ds) = dataset_kept _
  Keeps-perform (Call.add_datafile df) = datafile_kept df
  Keeps-perform (Call.update_datafile df) = datafile_kept _
  Keeps-perform (Call.add_dataversion v) = dataversion_kept v
  Keeps-perform (Call.update_dataversion v) = dataversion_kept _
  Keeps-perform (Call.addfile ds name description owner new) =
      Keeps-addfile ds name description owner new
  Keeps-perform (Call.delfile ds name now) = Keeps-delfile ds name now
  Keeps-perform (Call.delallfiles ds clock) = Keeps-delallfiles ds clock
  Keeps-perform (Call.addversion df gateway args new now) = Keeps-addversion df gateway args new now
  Keeps-perform (Call.delversion df n now) = Keeps-delversion df n now
  Keeps-perform (Call.delallversions df clock) = Keeps-delallversions df clock

  Keeps-run_from : (calls : List (Call c)) (db : Db) → P db → P (run c calls db)
  unfolding run
  Keeps-run_from [] db v = v
  Keeps-run_from (call ∷ calls) db v =
      Keeps-run_from calls (perform c call db) (Keeps-perform call db v)

IsValid-empty : IsValid empty_db
IsValid-empty = record {
  dataset_uuid = tt;
  dataset_name = tt;
  datafile_uuid = tt;
  datafile_name = tt;
  dataversion_uuid = tt;
  dataversion_number = tt;
  datafile_parent = tt;
  dataversion_parent = tt;
  dataversion_source = tt;
}

-- After any run of calls from the empty database, whether they return or raise, the tables meet the
-- constraints of the schema: primary keys, unique names and numbers, and no dangling reference.
pub run-IsValid : (c : Codec) (calls : List (Call c)) → IsValid (run c calls empty_db)
unfolding DataRepo.add_dataset DataRepo.add_datafile DataRepo.add_dataversion
run-IsValid c calls =
    Keeps-run_from c IsValid (λ ds. dataset_save-IsValid _) (λ df. datafile_save-IsValid _)
      (λ v. dataversion_save-IsValid _) calls empty_db IsValid-empty

pub run-IsReadable :
    (c : Codec) → IsFaithful c → (calls : List (Call c)) → IsReadable c (run c calls empty_db)
unfolding DataRepo.add_dataset DataRepo.add_datafile DataRepo.add_dataversion
run-IsReadable c f calls =
    Keeps-run_from c (IsReadable c)
      (λ ds. dataset_save-IsReadable c _ (dataset_to_dict-Reads c f ds))
      (λ df. datafile_save-IsReadable c _ (datafile_to_dict-Reads c f df))
      (λ v. dataversion_save-IsReadable c _ (dataversion_to_dict-Reads c f v)) calls empty_db
      (record { datasets = tt; datafiles = tt; dataversions = tt })

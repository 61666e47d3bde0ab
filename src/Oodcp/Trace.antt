-- ===== src/Oodcp/Trace.antt =====
-- The calls that write, as data, and runs of them from the empty database. An exception ends its
-- own call only.
use dvc.Base.{ℕ, String, List, [], ◌∷◌}
use dvc.Oodcp.Entities.{Codec, StorageGateway, DataSet, DataFile, DataVersion, Defaults}
use dvc.Oodcp.Tables.{Db}
use dvc.Oodcp.DataRepo
use dvc.Oodcp.Dataset
use dvc.Oodcp.Datafile
use dvc.Oodcp.Datafile.{VersionArgs}

-- The tables just after `_ensure_schema` on a new file.
abbrev pub empty_db : Db
empty_db = record { datasets = []; datafiles = []; dataversions = [] }

pub data Call (c : Codec) : Type 0 where
  add_dataset update_dataset : DataSet c → Call c
  add_datafile update_datafile : DataFile c → Call c
  add_dataversion update_dataversion : DataVersion c → Call c
  addfile : DataSet c → (name description owner : String) → Defaults c → Call c
  delfile : DataSet c → String → c.Datetime → Call c
  delallfiles : DataSet c → (String → c.Datetime) → Call c
  addversion : DataFile c → StorageGateway → VersionArgs c → Defaults c → c.Datetime → Call c
  delversion : DataFile c → ℕ → c.Datetime → Call c
  delallversions : DataFile c → (String → c.Datetime) → Call c

module _ (c : Codec) where
  unfoldable pub perform : Call c → Db → Db
  perform (Call.add_dataset ds) db = (DataRepo.add_dataset c ds db).1
  perform (Call.update_dataset ds) db = (DataRepo.update_dataset c ds db).1
  perform (Call.add_datafile df) db = (DataRepo.add_datafile c df db).1
  perform (Call.update_datafile df) db = (DataRepo.update_datafile c df db).1
  perform (Call.add_dataversion v) db = (DataRepo.add_dataversion c v db).1
  perform (Call.update_dataversion v) db = (DataRepo.update_dataversion c v db).1
  perform (addfile ds name description owner new) db =
      (Dataset.addfile c ds name description owner new db).1
  perform (delfile ds name now) db = (Dataset.delfile c ds name now db).1
  perform (delallfiles ds clock) db = (Dataset.delallfiles c ds clock db).1
  perform (addversion df gateway args new now) db =
      (Datafile.addversion c df gateway args new now db).1
  perform (delversion df n now) db = (Datafile.delversion c df n now db).1
  perform (delallversions df clock) db = (Datafile.delallversions c df clock db).1

  unfoldable pub run : List (Call c) → Db → Db
  unfolding perform
  run [] db = db
  run (call ∷ calls) db = run calls (perform call db)

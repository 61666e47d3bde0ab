-- ===== src/Oodcp/Dataset.antt =====
-- The methods of dvc/oodcp/domain/entities/dataset.py. `new` and `clock` are what uuid4() and now()
-- give; `clock u` is the reading while the file of uuid `u` is treated.
pub mod Laws
use dvc.Base.{
  String, Bool, true, false, Option, none, some, List, [], ◌∷◌, ◌==◌, string_eq, all, Exec, pure,
  throw, ◌>>=◌, ◌>>◌, if◌then◌else◌,
}
use dvc.Oodcp.Values.{
  EntityStatus, Error, duplicate_name, not_found, value_error, Identifier, text, nothing,
}
use dvc.Oodcp.Entities.{Codec, DataSet, DataFile, Defaults}
use dvc.Oodcp.Tables.{Db}
use dvc.Oodcp.DataRepo.{
  get_datafile, get_datafile_by_name, add_datafile, list_datafiles, update_datafile,
}

-- `if uuid:` on an optional text.
abbrev pub truthy : Option String → Option String
truthy none = none
truthy (some s) = if s == "" then none else some s

-- `f.status == EntityStatus.DELETED`
abbrev pub is_deleted : EntityStatus → Bool
is_deleted EntityStatus.active = false
is_deleted EntityStatus.deleted = true

module _ (c : Codec) where
  abbrev pub new_file : DataSet c → (name description owner : String) → Defaults c → DataFile c
  new_file self name description owner new = record {
    uuid = new.uuid;
    dataset_uuid = self.uuid;
    name = name;
    description = description;
    owner = if owner == "" then self.owner else owner;
    status = EntityStatus.active;
    created_at = new.created_at;
    updated_at = new.updated_at;
  }

  abbrev pub register : DataFile c → Option (DataFile c) → Exec Error Db (DataFile c)
  register df (some existing) = throw (duplicate_name "DataFile" df.name)
  register df none = do add_datafile c df; pure df

  unfoldable pub addfile :
      DataSet c → (name description owner : String) → Defaults c → Exec Error Db (DataFile c)
  addfile self name description owner new = do
    existing ← get_datafile_by_name c self.uuid name
    register (new_file self name description owner new) existing

  abbrev pub found_file : Identifier → Option (DataFile c) → Exec Error Db (DataFile c)
  found_file identifier none = throw (not_found "DataFile" identifier)
  found_file identifier (some df) = pure df

  -- `name = NULL` holds of no row.
  abbrev pub file_by_name : String → Option String → Exec Error Db (DataFile c)
  file_by_name dataset_uuid none = throw (not_found "DataFile" nothing)
  file_by_name dataset_uuid (some name) = do
    result ← get_datafile_by_name c dataset_uuid name
    found_file (text name) result

  abbrev pub file_by : DataSet c → Option String → Option String → Exec Error Db (DataFile c)
  file_by self name none = file_by_name self.uuid name
  file_by self name (some uuid) = do result ← get_datafile c uuid; found_file (text uuid) result

  unfoldable pub getfile : DataSet c → (name uuid : Option String) → Exec Error Db (DataFile c)
  getfile self none none = throw value_error
  getfile self none (some uuid) = file_by self none (truthy (some uuid))
  getfile self (some name) uuid = file_by self (some name) (truthy uuid)

  unfoldable pub listfiles : DataSet c → Bool → Exec Error Db (List (DataFile c))
  listfiles self include_deleted = list_datafiles c self.uuid include_deleted

  abbrev pub deleted_file : DataFile c → c.Datetime → DataFile c
  deleted_file df now = record df { status = EntityStatus.deleted; updated_at = now }

  unfoldable pub delfile : DataSet c → String → c.Datetime → Exec Error Db (Unit {0})
  unfolding getfile
  delfile self name now = do
    df ← getfile self (some name) none
    update_datafile c (deleted_file df now)

  unfoldable pub delete_files : (String → c.Datetime) → List (DataFile c) → Exec Error Db (Unit {0})
  delete_files clock [] = pure tt
  delete_files clock (df ∷ files) = do
    update_datafile c (deleted_file df (clock df.uuid))
    delete_files clock files

  unfoldable pub delallfiles : DataSet c → (String → c.Datetime) → Exec Error Db (Unit {0})
  unfolding delete_files listfiles
  delallfiles self clock = do files ← listfiles self false; delete_files clock files

  unfoldable pub candelete : DataSet c → Exec Error Db Bool
  unfolding listfiles
  candelete self = do files ← listfiles self true; pure (all (λ f. is_deleted f.status) files)

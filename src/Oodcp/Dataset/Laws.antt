-- ===== src/Oodcp/Dataset/Laws.antt =====
-- Registration of files in a dataset.
use dvc.Base.{
  String, ◌≡◌, refl, ap, ◌∙◌, Bool, true, Bool-cases, inl, inr, List, ◌&&◌, ◌++◌, Option, none,
  some, [], ◌∷◌, Result, return, raise, and_then, and_then-eq-return, pure, ◌==◌, string_eq, arith,
  find, find-snoc, fmap, traverse_option, In, All-In, find-In,
}
use dvc.Oodcp.Values.{Error, duplicate_name}
use dvc.Oodcp.Entities.{Codec, IsFaithful, DataSet, DataFile, Defaults}
use dvc.Oodcp.Tables.{DataFileRow, Db}
use dvc.Oodcp.Convert.{datafile_to_dict, datafile_from_dict, datafile_from_dict-to_dict}
use dvc.Oodcp.DatafileDal
use dvc.Oodcp.DataRepo.{add_datafile, get_datafile_by_name}
use dvc.Oodcp.Dataset.{addfile, getfile, new_file, register}
use dvc.Oodcp.Valid.Readable.{IsReadable, DatafileReads, datafile_from_dict-return}

pub get_by_name-In :
    (dataset_uuid name : String) (db : Db) {r : DataFileRow}
    → DatafileDal.get_by_name dataset_uuid name db ≡ some r
    → In r db.datafiles
unfolding DatafileDal.get_by_name
get_by_name-In d name db e = find-In (λ r. d == r.dataset_uuid && name == r.name) db.datafiles e

In-find :
    {A : Type 0} (p : A → Bool) (x : A) (xs : List A)
    → In x xs
    → p x ≡ true
    → (y : A) × (find p xs ≡ some y)
In-find p x [] m h = absurd m.1
In-find p x (y ∷ ys) (inl s) h = (y, rw (rw s at h) refl)
In-find p x (y ∷ ys) (inr m) h = elim (Bool-cases (p y)) [
  | inl e ↦ (y, rw e refl)
  | inr e ↦ rw e (In-find p x ys m h)
]

-- Where the table has a row of the dataset with the name, whatever its status is, the name is refused
-- and nothing changes. Every row reads.
pub addfile_duplicate :
    (c : Codec) (self : DataSet c) (name description owner : String) (new : Defaults c) (db : Db)
    (taken : DataFileRow)
    → IsReadable c db
    → In taken db.datafiles
    → taken.dataset_uuid ≡ self.uuid
    → taken.name ≡ name
    → addfile c self name description owner new db ≡ (raise (duplicate_name "DataFile" name), db)
unfolding addfile get_datafile_by_name DatafileDal.get_by_name
addfile_duplicate c self name description owner new db taken h there of named =
    let (r, e) =
      In-find (λ (r : DataFileRow). self.uuid == r.dataset_uuid && name == r.name) taken
        db.datafiles there (ground (arith, of, named)) in
    let m : In r db.datafiles = get_by_name-In self.uuid name db e in
    let (df, reads, _, _) =
      datafile_from_dict-return c r (All-In (DatafileReads c) r db.datafiles h.datafiles m) in
    rw (e, reads)

-- A file that is stored under a new uuid is the last row.
add_datafile_new :
    (c : Codec) (df : DataFile c) (db : Db)
    → (add_datafile c df db).0 ≡ return tt
    → DatafileDal.get df.uuid db ≡ none
    → (add_datafile c df db).1
      ≡ record db { datafiles = db.datafiles ++ datafile_to_dict c df ∷ [] }
unfolding add_datafile DatafileDal.get DatafileDal.save datafile_to_dict
add_datafile_new c df db e absent = ground (arith, absent)

module _ (c : Codec) (self : DataSet c) (name description owner : String) (new : Defaults c) where
  abbrev created : DataFile c
  created = new_file c self name description owner new

  registered_new :
      (o : Option (DataFile c)) (db : Db) {df : DataFile c}
      → (register c created o db).0 ≡ return df
      → (o ≡ none)
        × (df ≡ created)
        × ((add_datafile c created db).0 ≡ return tt)
        × ((register c created o db).1 ≡ (add_datafile c created db).1)
  registered_new (some x) db e = cc
  registered_new none db {df} e = go (add_datafile c created db).0 (add_datafile c created db).1 e
    where
      go :
          (r : Result Error (Unit {0})) (s : Db)
          → (and_then r (λ _. pure created) s).0 ≡ return df
          → (◌≡◌ {A = Option (DataFile c)} none none)
            × (df ≡ created)
            × (r ≡ return tt)
            × ((and_then r (λ _. pure created) s).1 ≡ s)
      go (return tt) s e = (refl, ground arith, refl, refl)
      go (raise x) s e = cc

  traverse_option-none :
      (o : Option DataFileRow) → traverse_option (datafile_from_dict c) o ≡ return none → o ≡ none
  traverse_option-none none e = refl
  traverse_option-none (some r) e = go (datafile_from_dict c r) e
    where
      go : (x : Result Error (DataFile c)) → fmap some x ≡ return none → some r ≡ none
      go (return y) e = cc
      go (raise z) e = cc

find_new :
    (c : Codec) (self : DataSet c) (name description owner : String) (new : Defaults c) (db : Db)
    → find (λ r. self.uuid == r.dataset_uuid && name == r.name) db.datafiles ≡ none
    → find
        (λ r. self.uuid == r.dataset_uuid && name == r.name)
        (db.datafiles ++ datafile_to_dict c (new_file c self name description owner new) ∷ [])
      ≡ some (datafile_to_dict c (new_file c self name description owner new))
unfolding datafile_to_dict
find_new c self name description owner new db free =
    let row = datafile_to_dict c (new_file c self name description owner new) in
    ground (
      arith,
      free,
      find-snoc (λ (r : DataFileRow). self.uuid == r.dataset_uuid && name == r.name) db.datafiles
          row,
    )

-- A file that `addfile` returns, under a uuid that is new, is the one that `getfile` then gives for
-- its name, and it has the name, the description and the dataset that were asked for. Texts that the
-- codec writes are read back.
pub addfile-getfile :
    (c : Codec)
    → IsFaithful c
    → (self : DataSet c) (name description owner : String) (new : Defaults c) (db : Db)
      {df : DataFile c}
    → (addfile c self name description owner new db).0 ≡ return df
    → DatafileDal.get new.uuid db ≡ none
    → (df ≡ new_file c self name description owner new)
      × (getfile c self (some name) none (addfile c self name description owner new db).1
          ≡ (return df, (addfile c self name description owner new db).1))
unfolding addfile getfile get_datafile_by_name DatafileDal.get_by_name
addfile-getfile c faithful self name description owner new db {df} e absent =
    let (o, looked, ends, state) =
      and_then-eq-return
        (traverse_option (datafile_from_dict c) (DatafileDal.get_by_name self.uuid name db))
        (register c (new_file c self name description owner new)) db e in
    let (nothing, same, added, after) =
      registered_new c self name description owner new o db {df = df} ends in
    let free : find (λ r. self.uuid == r.dataset_uuid && name == r.name) db.datafiles ≡ none =
      traverse_option-none c self name description owner new _ (looked ∙ ap return nothing) in
    let stored = add_datafile_new c (new_file c self name description owner new) db added absent in
    (
      same,
      rw (
        state,
        after,
        stored,
        find_new c self name description owner new db free,
        datafile_from_dict-to_dict c faithful (new_file c self name description owner new),
        same,
      ),
    )

-- ===== src/Oodcp/Versions/Numbering.antt =====
-- How `DataFile.addversion` numbers the versions of a file.
use Prim.Native.Nat.{max}
use dvc.Base.{
  ℕ, ◌+◌, ◌≤◌, ◌<◌, String, ◌≡◌, refl, sym, ap, ◌∙◌, inl, inr, Bool, true, Option, none, some, List,
  [], ◌∷◌, ◌++◌, ◌==◌, string_eq, nat_eq, select, All, All-of_In, In, In-select, Result, return,
  raise, and_then, and_then-eq-return, pure, any-find-none, Bool-cases, Option-cases, arith,
}
use dvc.Oodcp.Values.{Error, storage_type_of}
use dvc.Oodcp.Entities.{Codec, StorageGateway, DataFile, DataVersion, Defaults}
use dvc.Oodcp.Tables.{DataVersionRow, Db}
use dvc.Oodcp.Convert.{dataversion_to_dict}
use dvc.Oodcp.DataversionDal
use dvc.Oodcp.DataversionDal.{max_version_number}
use dvc.Oodcp.DataRepo.{add_dataversion, get_next_version_number}
use dvc.Oodcp.Dataversion.{savedata}
use dvc.Oodcp.Datafile
use dvc.Oodcp.Datafile.{VersionArgs}

max_version_number-max :
    (r : DataVersionRow) (rows : List DataVersionRow)
    → In r rows
    → r.version_number ≤ max_version_number rows
unfolding max_version_number
max_version_number-max r [] m = absurd m.1
max_version_number-max r (s ∷ rows) (inl e) = rw e (omega arith)
max_version_number-max r (s ∷ rows) (inr m) = omega (arith, max_version_number-max r rows m)

max_version_number-snoc :
    (rows : List DataVersionRow) (r : DataVersionRow)
    → max_version_number (rows ++ r ∷ []) ≡ max (max_version_number rows) r.version_number
unfolding max_version_number
max_version_number-snoc [] r = omega arith
max_version_number-snoc (s ∷ rows) r = omega (arith, max_version_number-snoc rows r)

select-snoc :
    (p : DataVersionRow → Bool) (rows : List DataVersionRow) (r : DataVersionRow)
    → p r ≡ true
    → select p (rows ++ r ∷ []) ≡ select p rows ++ r ∷ []
select-snoc p [] r h = ground arith
select-snoc p (s ∷ rows) r h = ground (arith, select-snoc p rows r h)

-- The next number is above every number of the file.
pub lt-get_next_version_number :
    (f : String) (db : Db)
    → All
        (λ r. f ≡ r.datafile_uuid → r.version_number < DataversionDal.get_next_version_number f db)
        db.dataversions
unfolding DataversionDal.get_next_version_number
lt-get_next_version_number f db =
    All-of_In
      (λ r. f ≡ r.datafile_uuid → r.version_number < DataversionDal.get_next_version_number f db)
      db.dataversions
      (λ r m e.
        let n =
          max_version_number-max r _
            (In-select (λ r. f == r.datafile_uuid) r db.dataversions m (ground arith)) in
        omega (arith, n))

module _ (c : Codec) where
  returns_same :
      (w : DataVersion c) (r : Result Error (Unit {0})) (s : Db) {v : DataVersion c}
      → (and_then r (λ _. pure w) s).0 ≡ return v
      → (w ≡ v) × (r ≡ return tt) × ((and_then r (λ _. pure w) s).1 ≡ s)
  returns_same w (return tt) s e = (ground arith, refl, refl)
  returns_same w (raise x) s e = cc

  store_version-eq-return :
      (w : DataVersion c) (db : Db) {v : DataVersion c}
      → (Datafile.store_version c w db).0 ≡ return v
      → (w ≡ v)
        × ((add_dataversion c v db).0 ≡ return tt)
        × ((Datafile.store_version c w db).1 ≡ (add_dataversion c v db).1)
  store_version-eq-return w db e =
      let (same, done, state) =
        returns_same w (add_dataversion c w db).0 (add_dataversion c w db).1 e in
      (same, rw (← same) done, state ∙ ap (λ x. (add_dataversion c x db).1) same)

module _ (c : Codec) (self : DataFile c) (gateway : StorageGateway) (args : VersionArgs c)
    (new : Defaults c) (now : c.Datetime) where
  fill_version-keeps :
      (v : DataVersion c) (p h : Option String) {w : DataVersion c}
      → Datafile.fill_version c v p h now ≡ return w
      → (w.uuid ≡ v.uuid)
        × (w.datafile_uuid ≡ v.datafile_uuid)
        × (w.version_number ≡ v.version_number)
  unfolding Datafile.fill_version savedata
  fill_version-keeps v none none e = ground arith
  fill_version-keeps v none (some h) e = ground arith
  fill_version-keeps v (some p) h e = ground arith

  build_version-keeps :
      (n : ℕ) {v : DataVersion c}
      → Datafile.build_version c self gateway args new now n ≡ return v
      → (v.uuid ≡ new.uuid) × (v.datafile_uuid ≡ self.uuid) × (v.version_number ≡ n)
  build_version-keeps n {v} e = elim (Option-cases (storage_type_of args.storage_type)) [
    | inl z ↦ ground (arith, z)
    | inr (st, z) ↦
        fill_version-keeps (Datafile.draft_version c self gateway args new st n) args.source_path
          args.dvc_hash {w = v} (ground (arith, z))
  ]

  -- A call that returns has built the version and has stored it.
  addversion-eq-return :
      (db : Db) {v : DataVersion c}
      → (Datafile.addversion c self gateway args new now db).0 ≡ return v
      → (Datafile.build_version c self gateway args new now
            (DataversionDal.get_next_version_number self.uuid db)
          ≡ return v)
        × ((add_dataversion c v db).0 ≡ return tt)
        × ((Datafile.addversion c self gateway args new now db).1 ≡ (add_dataversion c v db).1)
  unfolding Datafile.addversion get_next_version_number
  addversion-eq-return db {v} e =
      elim (Bool-cases (Datafile.no_data c args.source_path args.dvc_hash)) [
        | inl none_given ↦ ground (arith, none_given)
        | inr given ↦ rw given (stored (rw given at e))
      ]
    where
      n : ℕ
      n = DataversionDal.get_next_version_number self.uuid db

      stored :
          (and_then
              (Datafile.build_version c self gateway args new now n)
              (Datafile.store_version c)
              db).0
            ≡ return v
          → (Datafile.build_version c self gateway args new now n ≡ return v)
            × ((add_dataversion c v db).0 ≡ return tt)
            × ((and_then
                  (Datafile.build_version c self gateway args new now n)
                  (Datafile.store_version c)
                  db).1
                ≡ (add_dataversion c v db).1)
      stored h =
          let (w, built, ends, state) =
            and_then-eq-return (Datafile.build_version c self gateway args new now n)
              (Datafile.store_version c) db h in
          let (same, done, after) = store_version-eq-return c w db ends in
          (rw same at built, done, state ∙ after)

-- A version that is stored under a new uuid is the last row.
add_dataversion_new :
    (c : Codec) (v : DataVersion c) (db : Db)
    → (add_dataversion c v db).0 ≡ return tt
    → DataversionDal.get v.uuid db ≡ none
    → (add_dataversion c v db).1
      ≡ record db { dataversions = db.dataversions ++ dataversion_to_dict c v ∷ [] }
unfolding add_dataversion DataversionDal.get DataversionDal.save dataversion_to_dict
add_dataversion_new c v db e absent =
    ground (arith, any-find-none (λ (r : DataVersionRow). v.uuid == r.uuid) db.dataversions absent)

get_next_version_number-snoc :
    (f : String) (db : Db) (r : DataVersionRow)
    → f ≡ r.datafile_uuid
    → r.version_number ≡ DataversionDal.get_next_version_number f db
    → DataversionDal.get_next_version_number f
        (record db { dataversions = db.dataversions ++ r ∷ [] })
      ≡ r.version_number + 1
unfolding DataversionDal.get_next_version_number
get_next_version_number-snoc f db r same n =
    rw (select-snoc (λ s. f == s.datafile_uuid) db.dataversions r (ground arith)) (
      omega (arith, max_version_number-snoc (select (λ s. f == s.datafile_uuid) db.dataversions) r))

-- A call of `addversion` that returns gives the version the next number: the number is above that of
-- every version of the file, deleted ones too, and the number after it comes next. The uuid that is
-- drawn is new.
pub addversion-number :
    (c : Codec) (self : DataFile c) (gateway : StorageGateway) (args : VersionArgs c)
    (new : Defaults c) (now : c.Datetime) (db : Db) {v : DataVersion c}
    → (Datafile.addversion c self gateway args new now db).0 ≡ return v
    → DataversionDal.get new.uuid db ≡ none
    → (v.version_number ≡ DataversionDal.get_next_version_number self.uuid db)
      × All (λ r. self.uuid ≡ r.datafile_uuid → r.version_number < v.version_number) db.dataversions
      × (DataversionDal.get_next_version_number self.uuid
            (Datafile.addversion c self gateway args new now db).1
          ≡ v.version_number + 1)
unfolding dataversion_to_dict
addversion-number c self gateway args new now db {v} e absent =
    let (built, done, state) = addversion-eq-return c self gateway args new now db e in
    let (u, f, n) =
      build_version-keeps c self gateway args new now
        (DataversionDal.get_next_version_number self.uuid db) built in
    (
      n,
      rw n (lt-get_next_version_number self.uuid db),
      rw (state, add_dataversion_new c v db done (rw (← u) at absent))
          (get_next_version_number-snoc self.uuid db (dataversion_to_dict c v) (sym f) n),
    )

-- ===== src/Oodcp/Deletion.antt =====
-- Soft deletion of all versions of a file: `delallversions` and `candelete` of
-- dvc/oodcp/domain/entities/datafile.py.
use mathlib.Core.List.{map-map}
use dvc.Base.{
  Keeps-bind, String, ◌≡◌, refl, sym, ap, ◌∙◌, Bool, true, false, Option, some, List, [], ◌∷◌, ◌==◌,
  string_eq, contains-In, All-map, all-All, map, update, contains, All, All-mono, All-of_In, All-In,
  In, return, Keeps, traverse-return, Bool-cases, inl, inr, ◌⊎◌, arith, contains-map, map-update,
  if◌then◌else◌,
}
use dvc.Oodcp.Values.{VersionStatus, version_status, version_status_value}
use dvc.Oodcp.Entities.{Codec, IsFaithful, DataFile, DataVersion}
use dvc.Oodcp.Tables.{DataVersionRow, Db, dataversion_uuids}
use dvc.Oodcp.Convert.{dataversion_to_dict, dataversion_from_dict}
use dvc.Oodcp.DataversionDal
use dvc.Oodcp.DataRepo.{list_dataversions, update_dataversion}
use dvc.Oodcp.Datafile.{is_deleted, deleted_version, delete_versions, delallversions, candelete}
use dvc.Oodcp.Valid.Readable.{
  IsReadable, DataversionReads, dataversion_from_dict-return, dataversion_save-IsReadable,
  dataversion_to_dict-Reads,
}
use dvc.Oodcp.Versions.Queries.{list_for_datafile_lem}

-- A save of a row whose uuid is there changes that row and returns.
save_there :
    (row : DataVersionRow) (db : Db)
    → contains (dataversion_uuids db.dataversions) row.uuid ≡ true
    → DataversionDal.save row db ≡ (
      return tt,
      record db {
        dataversions =
            update (λ r. row.uuid == r.uuid) (DataversionDal.updated row) db.dataversions;
      },
    )
unfolding DataversionDal.save
save_there row db h =
    rw (sym (contains-map (λ (r : DataVersionRow). r.uuid) db.dataversions row.uuid) ∙ h)

-- A row of the file is deleted, or its turn comes.
abbrev Pending : String → List String → DataVersionRow → Type 0
Pending f uuids r = f ≡ r.datafile_uuid → (r.status ≡ "DELETED") ⊎ (contains uuids r.uuid ≡ true)

module _ (c : Codec) (clock : String → c.Datetime) where
  abbrev deleted_row : DataVersion c → DataVersionRow
  deleted_row v = dataversion_to_dict c (deleted_version c v (clock v.uuid))

  Pending-step :
      (f : String) (v : DataVersion c) (uuids : List String) (rows : List DataVersionRow)
      → All (Pending f (v.uuid ∷ uuids)) rows
      → All (Pending f uuids) (
          update
            (λ r. (deleted_row v).uuid == r.uuid)
            (DataversionDal.updated (deleted_row v))
            rows)
  unfolding dataversion_to_dict version_status_value
  Pending-step f v uuids [] h = tt
  Pending-step f v uuids (r ∷ rows) h = (one (h.0), Pending-step f v uuids rows h.1)
    where
      one :
          Pending f (v.uuid ∷ uuids) r
          → Pending f uuids (
              if (deleted_row v).uuid == r.uuid
              then DataversionDal.updated (deleted_row v) r
              else r)
      one p = elim (Bool-cases (v.uuid == r.uuid)) [
        | inl e ↦ rw e (λ q. inl refl)
        | inr e ↦ rw e (λ q. elim (p q) [ inl s ↦ inl s | inr m ↦ inr (ground arith) ])
      ]

  delete_versions_lem :
      (f : String) (versions : List (DataVersion c)) (db : Db)
      → All (λ v. contains (dataversion_uuids db.dataversions) v.uuid ≡ true) versions
      → All (Pending f (map (λ v. v.uuid) versions)) db.dataversions
      → ((delete_versions c clock versions db).0 ≡ return tt)
        × All (Pending f []) (delete_versions c clock versions db).1.dataversions
  unfolding delete_versions update_dataversion dataversion_to_dict
  delete_versions_lem f [] db there h = (refl, h)
  delete_versions_lem f (v ∷ versions) db there h = rw (save_there (deleted_row v) db there.0) (
      delete_versions_lem f versions
        (record db {
          dataversions =
              update (λ r. (deleted_row v).uuid == r.uuid) (DataversionDal.updated (deleted_row v))
                db.dataversions;
        })
        (rw
          (map-update (λ (r : DataVersionRow). r.uuid) (λ r. (deleted_row v).uuid == r.uuid)
            (DataversionDal.updated (deleted_row v)) db.dataversions (λ r. refl))
          there.1)
        (Pending-step f v (map (λ w. w.uuid) versions) db.dataversions h))

-- What a row and its version share: the uuid, and the status that the text stands for.
abbrev pub Key : Type 0
Key = String × Option VersionStatus

abbrev pub row_key : DataVersionRow → Key
row_key r = (r.uuid, version_status r.status)

abbrev pub version_key : (c : Codec) → DataVersion c → Key
version_key c v = (v.uuid, some v.status)

-- Where every row reads, a listing of versions returns, row by row.
pub list_dataversions-return :
    (c : Codec) (f : String) (include_deleted : Bool) (db : Db)
    → IsReadable c db
    → (versions : List (DataVersion c)) × (list_dataversions c f include_deleted db
        ≡ (return versions, db))
      × (map (version_key c) versions
          ≡ map row_key (DataversionDal.list_for_datafile f include_deleted db))
unfolding list_dataversions
list_dataversions-return c f b db h =
    let rows = DataversionDal.list_for_datafile f b db in
    let (vs, e, same) =
      traverse-return (dataversion_from_dict c) row_key (version_key c) rows
        (All-of_In _ rows reads) in
    (vs, rw e, same)
  where
    reads :
        (r : DataVersionRow)
        → In r (DataversionDal.list_for_datafile f b db)
        → (v : DataVersion c) × (dataversion_from_dict c r ≡ return v)
          × (version_key c v ≡ row_key r)
    reads r m =
        let there = (((list_for_datafile_lem f b db).1 r).0 m).0 in
        let (v, e, u, s) =
          dataversion_from_dict-return c r
            (All-In (DataversionReads c) r db.dataversions h.dataversions there) in
        (v, e, λ i. (u i, sym s i))

module _ (c : Codec) (f : String) (b : Bool) (db : Db) (vs : List (DataVersion c))
    (same : map (version_key c) vs ≡ map row_key (DataversionDal.list_for_datafile f b db)) where
  same_uuids :
      map (λ (v : DataVersion c). v.uuid) vs
      ≡ map (λ r. r.uuid) (DataversionDal.list_for_datafile f b db)
  same_uuids =
      sym (map-map (λ (k : Key). k.0) (version_key c) vs)
      ∙ ap (map (λ (k : Key). k.0)) same
      ∙ map-map (λ (k : Key). k.0) row_key (DataversionDal.list_for_datafile f b db)

  -- Each version that is listed is in the table.
  listed_there :
      All (λ (v : DataVersion c). contains (dataversion_uuids db.dataversions) v.uuid ≡ true) vs
  listed_there =
      let P : String → Type 0 = λ u. contains (dataversion_uuids db.dataversions) u ≡ true in
      let rows = DataversionDal.list_for_datafile f b db in
      (All-map P (λ (v : DataVersion c). v.uuid) vs).0 (
        rw same_uuids (
          (All-map P (λ (r : DataVersionRow). r.uuid) rows).1 (
            All-of_In _ rows (λ r m.
              contains-In (λ (s : DataVersionRow). s.uuid) r db.dataversions
                (((list_for_datafile_lem f b db).1 r).0 m).0))))

starts-Pending :
    (c : Codec) (f : String) (db : Db) (vs : List (DataVersion c))
    → map (version_key c) vs ≡ map row_key (DataversionDal.list_for_datafile f false db)
    → All (Pending f (map (λ (v : DataVersion c). v.uuid) vs)) db.dataversions
starts-Pending c f db vs same = All-of_In _ db.dataversions (λ r m q.
    elim (string_eq.dec r.status "DELETED") [
      | yes d ↦ inl d
      | no d ↦ inr (
          rw (same_uuids c f false db vs same) (
            contains-In (λ (s : DataVersionRow). s.uuid) r _
              (((list_for_datafile_lem f false db).1 r).1 (m, (q, inr d)))))
    ])

delete_versions-IsReadable :
    (c : Codec)
    → IsFaithful c
    → (clock : String → c.Datetime) (versions : List (DataVersion c))
    → Keeps (IsReadable c) (delete_versions c clock versions)
unfolding delete_versions update_dataversion
delete_versions-IsReadable c faithful clock [] = λ db h. h
delete_versions-IsReadable c faithful clock (v ∷ versions) =
    Keeps-bind _ _ (dataversion_save-IsReadable c _ (dataversion_to_dict-Reads c faithful _))
      (λ _. delete_versions-IsReadable c faithful clock versions)

version_status_deleted : version_status "DELETED" ≡ some VersionStatus.deleted
unfolding version_status string_eq
version_status_deleted = refl

-- Where all rows of the file are deleted, `candelete` answers true.
candelete_deleted :
    (c : Codec) (self : DataFile c) (db : Db)
    → IsReadable c db
    → All (Pending self.uuid []) db.dataversions
    → (candelete c self db).0 ≡ return true
unfolding candelete
candelete_deleted c self db h gone =
    let (vs, e, same) = list_dataversions-return c self.uuid true db h in
    rw (e, all-All (λ v. is_deleted v.status) vs (all_deleted vs same))
  where
    reads_deleted : (s : String) → s ≡ "DELETED" → version_status s ≡ some VersionStatus.deleted
    reads_deleted s e = rw e version_status_deleted

    IsGone : Key → Type 0
    IsGone k = k.1 ≡ some VersionStatus.deleted

    all_deleted :
        (vs : List (DataVersion c))
        → map (version_key c) vs ≡ map row_key (DataversionDal.list_for_datafile self.uuid true db)
        → All (λ (v : DataVersion c). is_deleted v.status ≡ true) vs
    all_deleted vs same =
        let rows = DataversionDal.list_for_datafile self.uuid true db in
        let gone_rows : All (λ r. IsGone (row_key r)) rows = All-of_In _ rows (λ r m.
          let (there, (of_file, _)) = ((list_for_datafile_lem self.uuid true db).1 r).0 m in
          reads_deleted r.status
            (elim (All-In (Pending self.uuid []) r db.dataversions gone there of_file) [
              | inl d ↦ d
              | inr n ↦ cc
            ])) in
        All-mono _ vs (λ v g. ground arith)
          ((All-map IsGone (version_key c) vs).0
            (rw same ((All-map IsGone row_key rows).1 gone_rows)))

-- Where every row reads, the deletion of all versions of a file returns, after it every version of
-- the file is marked as deleted in the table, and `candelete` answers true.
pub delallversions-candelete :
    (c : Codec)
    → IsFaithful c
    → (self : DataFile c) (clock : String → c.Datetime) (db : Db) → IsReadable c db
    → ((delallversions c self clock db).0 ≡ return tt)
      × All
          (λ r. self.uuid ≡ r.datafile_uuid → r.status ≡ "DELETED")
          (delallversions c self clock db).1.dataversions
      × ((candelete c self (delallversions c self clock db).1).0 ≡ return true)
unfolding delallversions
delallversions-candelete c faithful self clock db h =
    let (vs, e, same) = list_dataversions-return c self.uuid false db h in
    let (done, gone) =
      delete_versions_lem c clock self.uuid vs db (listed_there c self.uuid false db vs same)
        (starts-Pending c self.uuid db vs same) in
    let reads = delete_versions-IsReadable c faithful clock vs db h in
    rw e (
      done,
      All-mono _ _ (λ r p q. elim (p q) [ inl d ↦ d | inr n ↦ cc ]) gone,
      candelete_deleted c self _ reads gone,
    )

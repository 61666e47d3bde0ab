-- ===== src/Oodcp/Versions/Queries.antt =====
-- `get_latest` and `list_for_datafile` of dvc/oodcp/data/dal/dataversion_dal.py.
use dvc.Base.{
  String, ◌≡◌, ◌≢◌, refl, ◌≤◌, ◌↔◌, ◌⊎◌, inl, inr, Bool, true, false, not, ◌&&◌, none, some, ◌==◌,
  string_eq, map, select, All, In, leb, arith, In-select, In-of_select, In-order_by, All-In,
  All-of_In, Ascending, Ascending-order_by, first-order_by, first-In, first-none,
}
use dvc.Oodcp.Tables.{DataVersionRow, Db}
use dvc.Oodcp.DataversionDal.{get_latest, list_for_datafile}

-- A committed version of the datafile.
abbrev pub IsCommitted : String → DataVersionRow → Type 0
IsCommitted datafile_uuid r = (datafile_uuid ≡ r.datafile_uuid) × (r.status ≡ "COMMITTED")

abbrev committed_test : String → DataVersionRow → Bool
committed_test f r = f == r.datafile_uuid && "COMMITTED" == r.status

committed_test_iff :
    (f : String) (r : DataVersionRow) → (committed_test f r ≡ true) ↔ IsCommitted f r
committed_test_iff f r = (λ h. (ground arith, ground arith), λ (h, k). ground arith)

-- The latest version is a committed version of the datafile, and no committed version of the
-- datafile has a greater number.
pub get_latest-some :
    (datafile_uuid : String) (db : Db) {r : DataVersionRow}
    → get_latest datafile_uuid db ≡ some r
    → In r db.dataversions
      × IsCommitted datafile_uuid r
      × All (λ s. IsCommitted datafile_uuid s → s.version_number ≤ r.version_number) db.dataversions
unfolding get_latest
get_latest-some f db {r} h =
    let rows = select (committed_test f) db.dataversions in
    let le = λ (a b : DataVersionRow). leb b.version_number a.version_number in
    let (there, test) =
      In-of_select (committed_test f) r db.dataversions
        ((In-order_by le r rows).0 (first-In (λ (s : DataVersionRow). s.version_number) _ h)) in
    let greatest = first-order_by (λ (s : DataVersionRow). s.version_number) rows h in
    (
      there,
      (committed_test_iff f r).0 test,
      All-of_In (λ s. IsCommitted f s → s.version_number ≤ r.version_number) db.dataversions
          (λ s m c.
            All-In (λ x. x.version_number ≤ r.version_number) s rows greatest
              (In-select (committed_test f) s db.dataversions m ((committed_test_iff f s).1 c))),
    )

-- There is no latest version only if no version of the datafile is committed.
pub get_latest-none :
    (datafile_uuid : String) (db : Db)
    → get_latest datafile_uuid db ≡ none
    → All (λ s. ¬ (IsCommitted datafile_uuid s)) db.dataversions
unfolding get_latest
get_latest-none f db h =
    let le = λ (a b : DataVersionRow). leb b.version_number a.version_number in
    let e =
      first-none (λ (s : DataVersionRow). s.version_number) le
        (select (committed_test f) db.dataversions) h in
    All-of_In (λ s. ¬ (IsCommitted f s)) db.dataversions
      (λ s m c.
        let m' : In s (select (committed_test f) db.dataversions) =
          In-select (committed_test f) s db.dataversions m ((committed_test_iff f s).1 c) in
        absurd ((rw e at m').1))

-- Whether a listing shows a version.
abbrev pub IsListed : String → Bool → DataVersionRow → Type 0
IsListed datafile_uuid include_deleted r =
    (datafile_uuid ≡ r.datafile_uuid) × ((include_deleted ≡ true) ⊎ (r.status ≢ "DELETED"))

-- A listing is in ascending order of the version numbers, and shows just the versions of the
-- datafile, without the deleted ones unless they are asked for.
pub list_for_datafile_lem :
    (datafile_uuid : String) (include_deleted : Bool) (db : Db)
    → Ascending (map (λ r. r.version_number) (list_for_datafile datafile_uuid include_deleted db))
      × ((r : DataVersionRow)
          → In r (list_for_datafile datafile_uuid include_deleted db)
            ↔ (In r db.dataversions × IsListed datafile_uuid include_deleted r))
unfolding list_for_datafile
list_for_datafile_lem f true db = (
  Ascending-order_by (λ (r : DataVersionRow). r.version_number)
      (select (λ r. f == r.datafile_uuid) db.dataversions),
  λ r. (
    λ h.
        let (m, t) = In-of_select _ r db.dataversions ((In-order_by _ r _).0 h) in
        (m, (ground arith, inl refl)),
    λ h. (In-order_by _ r _).1 (In-select _ r db.dataversions h.0 (let e = h.1.0 in ground arith)),
  ),
)
list_for_datafile_lem f false db = (
  Ascending-order_by (λ (r : DataVersionRow). r.version_number)
      (select (λ r. f == r.datafile_uuid && not ("DELETED" == r.status)) db.dataversions),
  λ r. (
    λ h.
        let (m, t) = In-of_select _ r db.dataversions ((In-order_by _ r _).0 h) in
        (m, (ground arith, inr (λ d. ground arith))),
    λ h.
        (In-order_by _ r _).1 (In-select _ r db.dataversions h.0 (let (e, s) = h.1 in shown r e s)),
  ),
)
  where
    shown :
        (r : DataVersionRow)
        → f ≡ r.datafile_uuid
        → (false ≡ true) ⊎ (r.status ≢ "DELETED")
        → (f == r.datafile_uuid && not ("DELETED" == r.status)) ≡ true
    shown r e (inl z) = cc
    shown r e (inr s) = ground arith

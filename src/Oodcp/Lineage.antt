-- ===== src/Oodcp/Lineage.antt =====
-- The lineage query of dvc/oodcp/data/dal/dataversion_dal.py, against the following of one pointer
-- after another.
pub mod Provenance
use mathlib.Core.List.{flat_map, append-nil}
use dvc.Base.{
  ℕ, zero, suc, ◌-◌, ◌≤◌, ◌<◌, String, ◌≡◌, refl, sym, ap, ◌∙◌, Bool, true, false, Option, none,
  some, List, [], ◌∷◌, ◌++◌, ◌==◌, string_eq, map, select, find, contains, length, All, All-In, In,
  In-of_select, Distinct, Bool-cases, Option-cases, inl, inr, arith, contains-map, any,
  if◌then◌else◌,
}
use dvc.Oodcp.Tables.{DataVersionRow, Db, IsValid, dataversion_uuids}
use dvc.Oodcp.DataversionDal.{sources, lineage, get_lineage_chain}

-- Follows the source pointers from a uuid, over `n` rows at most.
unfoldable pub follow : List DataVersionRow → ℕ → Option String → List DataVersionRow
follow rows zero s = []
follow rows (suc n) none = []
follow rows (suc n) (some u) = elim (find (λ r. u == r.uuid) rows) [
  | none ↦ []
  | some r ↦ r ∷ follow rows n r.source_version_uuid
]

abbrev to_list : Option DataVersionRow → List DataVersionRow
to_list none = []
to_list (some r) = r ∷ []

select_absent :
    (rows : List DataVersionRow) (u : String)
    → contains (dataversion_uuids rows) u ≡ false
    → select (λ r. u == r.uuid) rows ≡ []
select_absent [] u h = refl
select_absent (r ∷ rows) u h = ground (arith, select_absent rows u)

-- At most one row has the uuid.
select_unique :
    (rows : List DataVersionRow) (u : String)
    → Distinct (dataversion_uuids rows)
    → select (λ r. u == r.uuid) rows ≡ to_list (find (λ r. u == r.uuid) rows)
select_unique [] u d = refl
select_unique (r ∷ rows) u d = elim (string_eq.dec u r.uuid) [
  | yes e ↦ ground (arith, e, select_absent rows r.uuid d.0)
  | no n ↦ ground (arith, select_unique rows u d.1)
]

lineage-nil : (rows : List DataVersionRow) (n : ℕ) → lineage rows n [] ≡ []
unfolding lineage flat_map
lineage-nil rows zero = refl
lineage-nil rows (suc n) = lineage-nil rows n

-- What follows from a row that was found, or not.
abbrev from_row : List DataVersionRow → ℕ → Option DataVersionRow → List DataVersionRow
from_row rows n none = []
from_row rows n (some r) = r ∷ follow rows n r.source_version_uuid

follow-suc :
    (rows : List DataVersionRow) (n : ℕ) (u : String)
    → follow rows (suc n) (some u) ≡ from_row rows n (find (λ r. u == r.uuid) rows)
unfolding follow
follow-suc rows n u = ground arith

abbrev next_level : List DataVersionRow → Option String → List DataVersionRow
next_level rows none = []
next_level rows (some u) = select (λ r. u == r.uuid) rows

sources_lem :
    (rows : List DataVersionRow) (r : DataVersionRow)
    → sources rows r ≡ next_level rows r.source_version_uuid
unfolding sources
sources_lem rows r = ground arith

lineage-from_row :
    (rows : List DataVersionRow) (n : ℕ) (o : Option DataVersionRow)
    → Distinct (dataversion_uuids rows)
    → lineage rows n (to_list o) ≡ from_row rows n o
unfolding lineage follow flat_map
lineage-from_row rows n none d = lineage-nil rows n
lineage-from_row rows zero (some r) d = refl
lineage-from_row rows (suc n) (some r) d =
    ap (λ l. r ∷ l)
      (rw (append-nil (sources rows r), sources_lem rows r)
        (next r.source_version_uuid (λ o. lineage-from_row rows n o d)))
  where
    next :
        (s : Option String)
        → ((o : Option DataVersionRow) → lineage rows n (to_list o) ≡ from_row rows n o)
        → lineage rows n (next_level rows s) ≡ follow rows (suc n) s
    next none ih = lineage-nil rows n
    next (some u) ih =
        rw (select_unique rows u d, follow-suc rows n u) (ih (find (λ r. u == r.uuid) rows))

-- Where uuids are unique, the recursive query gives the rows that are met on following the source
-- pointers from the uuid, `max_depth` of them at most; a depth of 0 counts as 1.
pub get_lineage_chain-eq-follow :
    (u : String) (max_depth : ℕ) (db : Db)
    → Distinct (dataversion_uuids db.dataversions)
    → get_lineage_chain u max_depth db ≡ follow db.dataversions (suc (max_depth - 1)) (some u)
unfolding get_lineage_chain
get_lineage_chain-eq-follow u m db d =
    rw (select_unique db.dataversions u d, follow-suc db.dataversions (m - 1) u)
      (lineage-from_row db.dataversions (m - 1) (find (λ r. u == r.uuid) db.dataversions) d)

-- ===== src/Oodcp/Lineage/Provenance.antt =====
-- What the lineage of a version is where sources are older than what is made from them.
use dvc.Base.{
  ap, ◌∙◌, ℕ, zero, suc, ◌-◌, ◌≤◌, ◌<◌, String, ◌≡◌, refl, sym, true, false, Option, none, some,
  List, [], ◌∷◌, ◌==◌, string_eq, find, contains, All, All-In, find-In, find_key, Distinct,
  Option-cases, inl, inr, arith, contains-map, any-find,
}
use dvc.Oodcp.Tables.{DataVersionRow, Db, IsValid, RefersTo, dataversion_uuids}
use dvc.Oodcp.DataversionDal.{get_lineage_chain}
use dvc.Oodcp.Lineage.{follow, get_lineage_chain-eq-follow}

-- The source of a version has a lower rank, such as an earlier time.
abbrev pub SourceIsLower : (String → ℕ) → DataVersionRow → Option String → Type 0
SourceIsLower rank r none = Unit
SourceIsLower rank r (some u) = rank u < rank r.uuid

abbrev pub IsRanked : (String → ℕ) → List DataVersionRow → Type 0
IsRanked rank rows = All (λ r. SourceIsLower rank r r.source_version_uuid) rows

-- The rows lead from a pointer to a version with no source, each the source of the one before.
abbrev pub IsProvenance : Option String → List DataVersionRow → Type 0
IsProvenance none [] = Unit
IsProvenance none (r ∷ rows) = Unit × ⊥
IsProvenance (some u) [] = Unit × ⊥
IsProvenance (some u) (r ∷ rows) = (u ≡ r.uuid) × IsProvenance r.source_version_uuid rows

-- The rank of what a pointer names is below a bound.
abbrev Below : (String → ℕ) → ℕ → Option String → Type 0
Below rank k none = Unit
Below rank k (some u) = rank u < k

module _ (rank : String → ℕ) (rows : List DataVersionRow) (ranked : IsRanked rank rows) where
  source-Below :
      (r : DataVersionRow) (s : Option String) (k : ℕ)
      → SourceIsLower rank r s
      → rank r.uuid ≤ k
      → Below rank k s
  source-Below r none k h le = tt
  source-Below r (some u) k h le = omega arith

  follow-Below :
      (n k : ℕ) (s : Option String) → Below rank k s → All (λ r. rank r.uuid < k) (follow rows n s)
  unfolding follow
  follow-Below zero k s h = tt
  follow-Below (suc n) k none h = tt
  follow-Below (suc n) k (some u) h = elim (Option-cases (find (λ r. u == r.uuid) rows)) [
    | inl e ↦ rw (e, follow) tt
    | inr (r, e) ↦
        let key = find_key (λ (x : DataVersionRow). x.uuid) rows u {y = r} e in
        let below : rank r.uuid < k = rw (← key) h in
        let lower =
          All-In (λ x. SourceIsLower rank x x.source_version_uuid) r rows ranked
            (find-In _ rows e) in
        rw (e, follow)
          (
            below,
            follow-Below n k r.source_version_uuid
                (source-Below r r.source_version_uuid k lower (omega arith)),
          )
  ]

  not-contains_below :
      (u : String) (l : List DataVersionRow)
      → All (λ r. rank r.uuid < rank u) l
      → contains (dataversion_uuids l) u ≡ false
  not-contains_below u [] h = refl
  not-contains_below u (r ∷ l) h = elim (string_eq.dec u r.uuid) [
    | yes e ↦ absurd (omega (arith, ap rank e))
    | no n ↦ ground (arith, not-contains_below u l h.1)
  ]

  follow-Distinct : (n : ℕ) (s : Option String) → Distinct (dataversion_uuids (follow rows n s))
  unfolding follow
  follow-Distinct zero s = tt
  follow-Distinct (suc n) none = tt
  follow-Distinct (suc n) (some u) = elim (Option-cases (find (λ r. u == r.uuid) rows)) [
    | inl e ↦ rw (e, follow) tt
    | inr (r, e) ↦
        let lower =
          All-In (λ x. SourceIsLower rank x x.source_version_uuid) r rows ranked
            (find-In _ rows e) in
        rw (e, follow)
          (
            not-contains_below r.uuid _ (
                follow-Below n (rank r.uuid) r.source_version_uuid
                  (source-Below r r.source_version_uuid _ lower (omega arith))),
            follow-Distinct n r.source_version_uuid,
          )
  ]

  follow-IsProvenance :
      All (λ (r : DataVersionRow). RefersTo (dataversion_uuids rows) r.source_version_uuid) rows
      → (n : ℕ) (s : Option String) → RefersTo (dataversion_uuids rows) s
      → Below rank n s
      → IsProvenance s (follow rows n s)
  unfolding follow
  follow-IsProvenance known zero none there h = tt
  follow-IsProvenance known zero (some u) there h = absurd (omega arith)
  follow-IsProvenance known (suc n) none there h = tt
  follow-IsProvenance known (suc n) (some u) there h =
      let (r, e) =
        any-find (λ (x : DataVersionRow). u == x.uuid) rows
          (sym (contains-map (λ (x : DataVersionRow). x.uuid) rows u) ∙ there) in
      let key = find_key (λ (x : DataVersionRow). x.uuid) rows u {y = r} e in
      let m = find-In (λ (x : DataVersionRow). u == x.uuid) rows e in
      let lower = All-In (λ x. SourceIsLower rank x x.source_version_uuid) r rows ranked m in
      let refers =
        All-In (λ x. RefersTo (dataversion_uuids rows) x.source_version_uuid) r rows known m in
      let le : rank r.uuid ≤ n = omega (arith, ap rank key) in
      rw (e, follow)
        (
          key,
          follow-IsProvenance known n r.source_version_uuid refers
              (source-Below r r.source_version_uuid n lower le),
        )

-- Where sources have lower ranks and the depth allowed is above the rank of a stored version, its
-- lineage is its whole provenance: it begins with the version, goes from each version to its source,
-- ends with a version that has none, and names no version twice.
pub get_lineage_chain-IsProvenance :
    (rank : String → ℕ) (u : String) (max_depth : ℕ) (db : Db)
    → IsValid db
    → IsRanked rank db.dataversions
    → contains (dataversion_uuids db.dataversions) u ≡ true
    → rank u < max_depth
    → IsProvenance (some u) (get_lineage_chain u max_depth db)
      × Distinct (dataversion_uuids (get_lineage_chain u max_depth db))
get_lineage_chain-IsProvenance rank u m db v ranked there deep =
    let below : rank u < suc (m - 1) = omega arith in
    rw (get_lineage_chain-eq-follow u m db v.dataversion_uuid) (
      follow-IsProvenance rank db.dataversions ranked v.dataversion_source (suc (m - 1)) (some u)
          there below,
      follow-Distinct rank db.dataversions ranked (suc (m - 1)) (some u),
    )

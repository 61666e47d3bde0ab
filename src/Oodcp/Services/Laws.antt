-- ===== src/Oodcp/Services/Laws.antt =====
-- What the lineage and integrity services answer.
use dvc.Base.{
  String, ◌≡◌, refl, sym, subst, ◌∙◌, Bool, true, false, some, List, [], ◌∷◌, ◌==◌, string_eq,
  option_eq, map, contains, select, Distinct, All, All-of_In, Result, return, raise,
  then_result-eq-return, and_then-eq-return, traverse-All, Bool-cases, inl, inr, arith,
  if◌then◌else◌,
}
use dvc.Oodcp.Values.{Error}
use dvc.Oodcp.Entities.{Codec, StorageGateway, DataVersion}
use dvc.Oodcp.Tables.{DataVersionRow, Db}
use dvc.Oodcp.Convert.{dataversion_from_dict}
use dvc.Oodcp.DataversionDal
use dvc.Oodcp.DataRepo.{get_dataversion, list_dataversions}
use dvc.Oodcp.Services.{put, lookup, get_descendants, verify_version, verify_from, verify_batch}
use dvc.Oodcp.Versions.Queries.{list_for_datafile_lem}

pub lookup-put {ℓ} :
    {V : Type ℓ} (k j : String) (v : V) (d : List (String × V))
    → lookup j (put k v d) ≡ (if j == k then some v else lookup j d)
unfolding lookup put
lookup-put k j v [] = refl
lookup-put k j v ((i, w) ∷ d) = ground (arith, lookup-put k j v d)

module _ (c : Codec) (gateway : StorageGateway) where
  -- What a key holds stays unless a later version has that uuid.
  verify_from-lookup :
      (versions : List (DataVersion c)) (start : List (String × Bool)) (u : String)
      {results : List (String × Bool)}
      → verify_from c gateway start versions ≡ return results
      → contains (map (λ (v : DataVersion c). v.uuid) versions) u ≡ false
      → lookup u results ≡ lookup u start
  unfolding verify_from
  verify_from-lookup [] start u e absent = ground (arith, e)
  verify_from-lookup (v ∷ versions) start u {results} e absent =
      let (ok, checked, rest) = then_result-eq-return (verify_version c gateway v) _ e in
      let later =
        verify_from-lookup versions (put v.uuid ok start) u {results = results} rest
          (ground arith) in
      let first = lookup-put v.uuid u ok start in ground (arith, later, first)

  verify_from-results :
      (versions : List (DataVersion c)) (start : List (String × Bool))
      {results : List (String × Bool)}
      → verify_from c gateway start versions ≡ return results
      → Distinct (map (λ (v : DataVersion c). v.uuid) versions)
      → All
          (λ v.
            (b : Bool) × (verify_version c gateway v ≡ return b) × (lookup v.uuid results ≡ some b))
          versions
  unfolding verify_from
  verify_from-results [] start e d = tt
  verify_from-results (v ∷ versions) start {results} e d =
      let (ok, checked, rest) = then_result-eq-return (verify_version c gateway v) _ e in
      let later =
        verify_from-lookup versions (put v.uuid ok start) v.uuid {results = results} rest d.0 in
      let first = lookup-put v.uuid v.uuid ok start in
      (
        (ok, checked, ground (arith, later, first)),
        verify_from-results versions (put v.uuid ok start) rest d.1,
      )

-- The dict that a batch returns has, for each version, what its own verification returned, if no
-- uuid occurs twice in the batch.
pub verify_batch-lookup :
    (c : Codec) (gateway : StorageGateway) (versions : List (DataVersion c))
    {results : List (String × Bool)}
    → verify_batch c gateway versions ≡ return results
    → Distinct (map (λ (v : DataVersion c). v.uuid) versions)
    → All
        (λ v.
          (b : Bool) × (verify_version c gateway v ≡ return b) × (lookup v.uuid results ≡ some b))
        versions
unfolding verify_batch
verify_batch-lookup c gateway versions e d = verify_from-results c gateway versions [] e d

dataversion_from_dict-datafile :
    (c : Codec) (r : DataVersionRow) {v : DataVersion c}
    → dataversion_from_dict c r ≡ return v
    → v.datafile_uuid ≡ r.datafile_uuid
unfolding dataversion_from_dict
dataversion_from_dict-datafile c r e = ground arith

list_dataversions-datafile :
    (c : Codec) (f : String) (b : Bool) (db : Db) (vs : List (DataVersion c))
    → (list_dataversions c f b db).0 ≡ return vs
    → All (λ v. v.datafile_uuid ≡ f) vs
unfolding list_dataversions
list_dataversions-datafile c f b db vs e =
    traverse-All (dataversion_from_dict c) (λ r. f ≡ r.datafile_uuid) (λ v. v.datafile_uuid ≡ f)
      (λ r v same d. dataversion_from_dict-datafile c r {v = v} d ∙ sym same)
      (DataversionDal.list_for_datafile f b db) vs
      (All-of_In _ _ (λ r m. (((list_for_datafile_lem f b db).1 r).0 m).1.0)) e

select-All :
    (c : Codec) (p : DataVersion c → Bool) (P Q : DataVersion c → Type 0)
    → ((v : DataVersion c) → p v ≡ true → P v → Q v)
    → (vs : List (DataVersion c)) → All P vs
    → All Q (select p vs)
select-All c p P Q f [] h = tt
select-All c p P Q f (v ∷ vs) h = elim (Bool-cases (p v)) [
  | inl e ↦ rw e (f v e h.0, select-All c p P Q f vs h.1)
  | inr e ↦ rw e (select-All c p P Q f vs h.1)
]

-- The descendants that are found name the version as their source, and they are versions of its own
-- datafile: a version of another datafile is never found, though it may name the version too.
pub get_descendants-datafile :
    (c : Codec) (u : String) (db : Db) {w : DataVersion c} {vs : List (DataVersion c)}
    → (get_dataversion c u db).0 ≡ return (some w)
    → (get_descendants c u db).0 ≡ return vs
    → All (λ v. (v.source_version_uuid ≡ some u) × (v.datafile_uuid ≡ w.datafile_uuid)) vs
unfolding get_descendants get_dataversion list_dataversions
get_descendants-datafile c u db {w} {vs} found e =
    let (vs', listed, ends, _) =
      and_then-eq-return (list_dataversions c w.datafile_uuid true db).0 _ db (rw found at e) in
    subst
      (λ (r : Result Error (List (DataVersion c))).
        All (λ v. (v.source_version_uuid ≡ some u) × (v.datafile_uuid ≡ w.datafile_uuid))
          (listed_by r))
      ends
      (select-All c _ _ _ (λ v p same. (ground arith, same)) vs'
        (list_dataversions-datafile c w.datafile_uuid true db vs' listed))
  where
    listed_by : Result Error (List (DataVersion c)) → List (DataVersion c)
    listed_by (return l) = l
    listed_by (raise x) = []

-- ===== src/Oodcp/Pipeline/Laws.antt =====
-- What the status and the download of a pipeline dependency come to.
use dvc.Base.{
  ℕ, String, ◌≡◌, ◌≢◌, refl, Bool, false, Option, none, some, List, [], ◌∷◌, ◌==◌, string_eq,
  nat_eq, find, traverse_option, fmap, traverse-All, All-intro, Result, return, raise, Exec, ◌>>=◌,
  pure, and_then, Bool-cases, inl, inr, ◌⊎◌, arith, All,
}
use dvc.Oodcp.Values.{Error, attribute_error}
use dvc.Oodcp.Entities.{Codec, DataSet, DataFile, DataVersion}
use dvc.Oodcp.Tables.{DataVersionRow, Db}
use dvc.Oodcp.Convert.{dataversion_from_dict}
use dvc.Oodcp.DataversionDal
use dvc.Oodcp.DataRepo.{
  get_dataset_by_name, get_datafile_by_name, list_dataversions, get_latest_dataversion,
}
use dvc.Oodcp.Dataversion.{getdata}
use dvc.Oodcp.Pipeline.{
  OodcpDependency, compare_hashes, stored_hash, info_of, Status, unchanged, new, of_error,
  dvc_exception, resolve_version, download, fetch, in_file, in_dataset,
}

module _ (c : Codec) where
  -- A version that is read back has no gateway.
  dataversion_from_dict-gateway :
      (r : DataVersionRow) {v : DataVersion c}
      → dataversion_from_dict c r ≡ return v
      → v.storage_gateway ≡ none
  unfolding dataversion_from_dict
  dataversion_from_dict-gateway r e = ground arith

  -- What is found, if anything is, has no gateway.
  abbrev NoGateway : Result Error (Option (DataVersion c)) → Type 0
  NoGateway (raise e) = Unit
  NoGateway (return none) = Unit
  NoGateway (return (some v)) = v.storage_gateway ≡ none

  and_then-NoGateway :
      {A : Type 0} (r : Result Error A) (f : A → Exec Error Db (Option (DataVersion c))) (s : Db)
      → ((a : A) → r ≡ return a → NoGateway (f a s).0)
      → NoGateway (and_then r f s).0
  and_then-NoGateway (raise e) f s h = tt
  and_then-NoGateway (return a) f s h = h a refl

  found-NoGateway :
      (p : DataVersion c → Bool) (vs : List (DataVersion c))
      → All (λ v. v.storage_gateway ≡ none) vs
      → NoGateway (return (find p vs))
  found-NoGateway p [] h = tt
  found-NoGateway p (v ∷ vs) h = elim (Bool-cases (p v)) [
    | inl e ↦ rw e h.0
    | inr e ↦ rw e (found-NoGateway p vs h.1)
  ]

  list-gateway :
      (f : String) (b : Bool) (db : Db) (vs : List (DataVersion c))
      → (list_dataversions c f b db).0 ≡ return vs
      → All (λ v. v.storage_gateway ≡ none) vs
  unfolding list_dataversions
  list-gateway f b db vs e =
      traverse-All (dataversion_from_dict c) (λ _. Unit) (λ v. v.storage_gateway ≡ none)
        (λ r v _ d. dataversion_from_dict-gateway r {v = v} d)
        (DataversionDal.list_for_datafile f b db) vs (All-intro _ _ (λ _. tt)) e

  option-NoGateway :
      (o : Option DataVersionRow) → NoGateway (traverse_option (dataversion_from_dict c) o)
  option-NoGateway none = tt
  option-NoGateway (some r) = go (dataversion_from_dict c r) refl
    where
      go :
          (x : Result Error (DataVersion c))
          → dataversion_from_dict c r ≡ x
          → NoGateway (fmap some x)
      go (return v) e = dataversion_from_dict-gateway r {v = v} e
      go (raise z) e = tt

  in_file-NoGateway :
      (pinned : Option ℕ) (df : Option (DataFile c)) (db : Db)
      → NoGateway (in_file c pinned df db).0
  unfolding get_latest_dataversion list_dataversions
  in_file-NoGateway pinned none db = tt
  in_file-NoGateway none (some df) db = option-NoGateway (DataversionDal.get_latest df.uuid db)
  in_file-NoGateway (some n) (some df) db =
      and_then-NoGateway (list_dataversions c df.uuid false db).0 _ db (λ vs e.
        found-NoGateway (λ v. v.version_number == n) vs (list-gateway df.uuid false db vs e))

  in_dataset-NoGateway :
      (name : String) (pinned : Option ℕ) (ds : Option (DataSet c)) (db : Db)
      → NoGateway (in_dataset c name pinned ds db).0
  in_dataset-NoGateway name pinned none db = tt
  in_dataset-NoGateway name pinned (some ds) db =
      and_then-NoGateway (get_datafile_by_name c ds.uuid name db).0 _ _
        (λ df e. in_file-NoGateway pinned df _)

  resolve_version-NoGateway :
      (self : OodcpDependency) (db : Db) → NoGateway (resolve_version c self db).0
  unfolding resolve_version
  resolve_version-NoGateway self db =
      and_then-NoGateway (get_dataset_by_name c self.dataset_name db).0 _ _
        (λ ds e. in_dataset-NoGateway self.file_name self.pinned_version ds _)

  fetch_fails :
      (r : Result Error (Option (DataVersion c))) (to : String)
      → NoGateway r
      → (fetch c r to ≡ raise dvc_exception) ⊎ ((e : Error) × (fetch c r to ≡ raise (of_error e)))
  unfolding getdata
  fetch_fails (raise e) to h = inr (e, refl)
  fetch_fails (return none) to h = inl refl
  fetch_fails (return (some v)) to h = inr (attribute_error, rw h)

-- No download of a pipeline dependency ever returns, whatever the database holds. The version that
-- the name resolves to is read back without a gateway, and a call of the gateway raises.
pub download_fails :
    (c : Codec) (self : OodcpDependency) (to : String) (db : Db)
    → (download c self to db).0 ≢ return tt
unfolding download
download_fails c self to db e =
    elim (fetch_fails c (resolve_version c self db).0 to (resolve_version-NoGateway c self db)) [
      | inl p ↦ ground (arith, p)
      | inr (x, p) ↦ ground (arith, p)
    ]

-- The status that a dependency has just after it was saved.
abbrev pub settled : OodcpDependency → Status
settled self = elim self.info [ none ↦ new | some i ↦ unchanged ]

abbrev save_by :
    (c : Codec)
    → Exec Error Db (Option (DataVersion c))
    → OodcpDependency
    → Exec Error Db OodcpDependency
save_by c m self = do
  info ← m >>= (λ version. pure (info_of c self version))
  pure (record self { info = info })

abbrev status_by :
    (c : Codec) → Exec Error Db (Option (DataVersion c)) → OodcpDependency → Exec Error Db Status
status_by c m self = do
  current_hash ← m >>= (λ version. pure (elim version [ none ↦ none | some v ↦ some v.dvc_hash ]))
  pure (compare_hashes c current_hash (stored_hash c self))

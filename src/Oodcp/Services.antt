-- ===== src/Oodcp/Services.antt =====
-- dvc/oodcp/domain/services: lineage queries and batch verification.
pub mod Laws
use dvc.Base.{
  ℕ, String, Bool, true, false, Option, none, some, List, [], ◌∷◌, ◌==◌, string_eq, option_eq,
  select, Result, return, raise, then_result, Exec, pure, ◌>>=◌, if◌then◌else◌,
}
use dvc.Oodcp.Values.{Error}
use dvc.Oodcp.Entities.{Codec, StorageGateway, DataVersion}
use dvc.Oodcp.Tables.{Db}
use dvc.Oodcp.DataRepo.{get_dataversion, list_dataversions, query_lineage}

-- A dict with text keys, in the order of insertion; a key that is there keeps its place.
unfoldable pub put {ℓ} : {V : Type ℓ} → String → V → List (String × V) → List (String × V)
put k v [] = (k, v) ∷ []
put k v ((j, w) ∷ d) = if k == j then (k, v) ∷ d else (j, w) ∷ put k v d

unfoldable pub lookup {ℓ} : {V : Type ℓ} → String → List (String × V) → Option V
lookup k [] = none
lookup k ((j, w) ∷ d) = if k == j then some w else lookup k d

module _ (c : Codec) where
  unfoldable pub get_lineage : String → ℕ → Exec Error Db (List (DataVersion c))
  get_lineage version_uuid max_depth = query_lineage c version_uuid max_depth

  abbrev pub descendants_of : String → Option (DataVersion c) → Exec Error Db (List (DataVersion c))
  descendants_of version_uuid none = pure []
  descendants_of version_uuid (some version) = do
    all_versions ← list_dataversions c version.datafile_uuid true
    pure (select (λ v. v.source_version_uuid == some version_uuid) all_versions)

  unfoldable pub get_descendants : String → Exec Error Db (List (DataVersion c))
  get_descendants version_uuid = do
    version ← get_dataversion c version_uuid
    descendants_of version_uuid version

  unfoldable pub verify_version : StorageGateway → DataVersion c → Result Error Bool
  verify_version gateway version =
      if version.dvc_hash == ""
      then return false
      else gateway.verify version.dvc_hash version.hash_algorithm

  unfoldable pub verify_from :
      StorageGateway
      → List (String × Bool)
      → List (DataVersion c)
      → Result Error (List (String × Bool))
  unfolding verify_version put
  verify_from gateway results [] = return results
  verify_from gateway results (v ∷ versions) =
      then_result (verify_version gateway v)
        λ ok. verify_from gateway (put v.uuid ok results) versions

  unfoldable pub verify_batch :
      StorageGateway → List (DataVersion c) → Result Error (List (String × Bool))
  unfolding verify_from
  verify_batch gateway versions = verify_from gateway [] versions

-- ===== src/Oodcp/Dataversion.antt =====
-- The methods of dvc/oodcp/domain/entities/dataversion.py. A call of a gateway that is None raises
-- AttributeError.
use dvc.Base.{String, Bool, Option, none, some, Result, raise, fmap}
use dvc.Oodcp.Values.{VersionStatus, Error, attribute_error}
use dvc.Oodcp.Entities.{Codec, StorageGateway, DataVersion}

module _ (c : Codec) where
  abbrev pub with_gateway :
      {A : Type 0} → Option StorageGateway → (StorageGateway → Result Error A) → Result Error A
  with_gateway none f = raise attribute_error
  with_gateway (some g) f = f g

  unfoldable pub getdata : DataVersion c → String → Result Error String
  getdata self dest_path =
      with_gateway self.storage_gateway λ g. g.pull self.dvc_hash self.hash_algorithm dest_path

  abbrev pub committed_version : DataVersion c → String × String → c.Datetime → DataVersion c
  committed_version self (dvc_hash, algorithm) now = record self {
    dvc_hash = dvc_hash;
    hash_algorithm = algorithm;
    status = VersionStatus.committed;
    updated_at = now;
  }

  -- The object after the call.
  unfoldable pub savedata : DataVersion c → String → c.Datetime → Result Error (DataVersion c)
  savedata self source_path now =
      with_gateway self.storage_gateway λ g.
        fmap (λ pushed. committed_version self pushed now) (g.push source_path self.storage_uri)

  unfoldable pub verify : DataVersion c → Result Error Bool
  verify self = with_gateway self.storage_gateway λ g. g.verify self.dvc_hash self.hash_algorithm

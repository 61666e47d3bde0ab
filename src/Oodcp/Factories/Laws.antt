-- ===== src/Oodcp/Factories/Laws.antt =====
-- Which of a known hash and local data wins, in the factory and in `DataFile.addversion`.
use dvc.Base.{
  String, ◌≡◌, ◌≢◌, Option, none, some, return, raise, string_eq, arith, fmap, inl, inr, ◌⊎◌,
  Option-cases, Bool-cases, ◌==◌,
}
use dvc.Oodcp.Values.{VersionStatus, Error, value_error}
use dvc.Oodcp.Entities.{Codec, StorageGateway, DataVersion, Defaults}
use dvc.Oodcp.Dataversion.{savedata, committed_version}
use dvc.Oodcp.Datafile.{fill_version}
use dvc.Oodcp.Factories.{CreateArgs, registered, create_dataversion}

-- With a hash that is not empty the factory pushes nothing: it returns the version with that hash,
-- committed, whether or not there is local data.
pub create_dataversion_hash :
    (c : Codec) (gateway : StorageGateway) (args : CreateArgs c) (new : Defaults c)
    (now : c.Datetime) (h : String)
    → args.dvc_hash ≡ some h
    → h ≢ ""
    → create_dataversion c gateway args new now
      ≡ return (record (registered c gateway args new) { status = VersionStatus.committed })
unfolding create_dataversion
create_dataversion_hash c gateway args new now h e full = ground (arith, e)

-- `addversion` is the other way round: with local data it pushes, and a hash that was given is lost.
-- The version that comes out has the hash and the algorithm that the push answered.
pub fill_version_pushed :
    (c : Codec) (v : DataVersion c) (gateway : StorageGateway) (path : String)
    (dvc_hash : Option String) (now : c.Datetime)
    → v.storage_gateway ≡ some gateway
    → fill_version c v (some path) dvc_hash now
      ≡ fmap (λ pushed. committed_version c v pushed now) (gateway.push path v.storage_uri)
unfolding fill_version savedata
fill_version_pushed c v gateway path h now e = rw e

-- A version comes out of the factory in three ways: committed with the hash that was given, which is not
-- empty; where no hash or an empty one was given, committed with the hash and the algorithm that the
-- push of the local data answered; or as a draft with an empty hash, if this was given without local
-- data.
pub create_dataversion_status :
    (c : Codec) (gateway : StorageGateway) (args : CreateArgs c) (new : Defaults c)
    (now : c.Datetime) {v : DataVersion c}
    → create_dataversion c gateway args new now ≡ return v
    → ((v.status ≡ VersionStatus.committed) × (args.dvc_hash ≡ some v.dvc_hash) × (v.dvc_hash ≢ ""))
      ⊎ (((args.dvc_hash ≡ none) ⊎ (args.dvc_hash ≡ some ""))
          × (v.status ≡ VersionStatus.committed)
          × ((path : String) × (args.source_path ≡ some path)
              × (gateway.push path args.storage_uri ≡ return (v.dvc_hash, v.hash_algorithm))))
      ⊎ ((v.status ≡ VersionStatus.draft)
          × (v.dvc_hash ≡ "")
          × (args.dvc_hash ≡ some "")
          × (args.source_path ≡ none))
unfolding create_dataversion savedata
create_dataversion_status c gateway args new now {v} e = elim (Option-cases args.source_path) [
  | inl nothing ↦ elim (Option-cases args.dvc_hash) [
    | inl p ↦ ground (arith, nothing, p)
    | inr (h, p) ↦ elim (Bool-cases (h == "")) [
      | inl empty ↦ inr (
          inr (
            ground (arith, nothing, p, empty),
            ground (arith, nothing, p, empty),
            ground (arith, nothing, p, empty),
            nothing,
          ))
      | inr full ↦ inl (
        ground (arith, nothing, p, full),
        ground (arith, nothing, p, full),
        ground (arith, nothing, p, full),
      )
    ]
  ]
  | inr (path, there) ↦ elim (Option-cases args.dvc_hash) [
    | inl p ↦ inr (inl (inl p, ground (arith, there, p), (path, there, ground (arith, there, p))))
    | inr (h, p) ↦ elim (Bool-cases (h == "")) [
      | inl empty ↦ inr (
          inl (
            inr (ground (arith, p, empty)),
            ground (arith, there, p, empty),
            (path, there, ground (arith, there, p, empty)),
          ))
      | inr full ↦ inl (
        ground (arith, there, p, full),
        ground (arith, there, p, full),
        ground (arith, there, p, full),
      )
    ]
  ]
]

-- The factory raises ValueError if neither a hash nor local data is given, and else only where the
-- push raises.
pub create_dataversion_raise :
    (c : Codec) (gateway : StorageGateway) (args : CreateArgs c) (new : Defaults c)
    (now : c.Datetime) {x : Error}
    → create_dataversion c gateway args new now ≡ raise x
    → ((x ≡ value_error) × (args.source_path ≡ none) × (args.dvc_hash ≡ none))
      ⊎ ((path : String) × (args.source_path ≡ some path)
          × (gateway.push path args.storage_uri ≡ raise x))
unfolding create_dataversion savedata
create_dataversion_raise c gateway args new now e = elim (Option-cases args.source_path) [
  | inl p ↦ inl (ground (arith, p), p, ground (arith, p))
  | inr (path, p) ↦ inr (path, p, ground (arith, p))
]

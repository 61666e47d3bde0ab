-- ===== src/Base/Dict.antt =====
-- Python's dicts with text keys: the keys in the order of insertion, each of them once.
use Prim.Native.String.{String}
use mathlib.Core.Path.{◌≡◌, refl}
use mathlib.Core.Bool.{false, ◌||◌}
use mathlib.Core.Option.{Option, none, some}
use mathlib.Core.List.{List, [], ◌∷◌}
use mathlib.Core.Logic.{inl, inr}
use native.Mathlib.Omega.{arith}
use dvc.Base.Tests.{if◌then◌else◌, Bool-cases}
use dvc.Base.Equality.{◌==◌, string_eq, contains}
use dvc.Base.Lists.{given, Distinct}

abbrev pub Dict {ℓ} : Type ℓ → Type ℓ
Dict V = List (String × V)

module _ {ℓ} {V : Type ℓ} where
  -- `d.get(k)`
  unfoldable pub lookup : String → Dict V → Option V
  lookup k [] = none
  lookup k ((j, v) ∷ d) = if k == j then some v else lookup k d

  -- `d[k] = v`: a key that is there keeps its place.
  unfoldable pub insert : String → V → Dict V → Dict V
  insert k v [] = (k, v) ∷ []
  insert k v ((j, w) ∷ d) = if k == j then (j, v) ∷ d else (j, w) ∷ insert k v d

  -- `d.pop(k, None)`
  unfoldable pub delete : String → Dict V → Dict V
  delete k [] = []
  delete k ((j, w) ∷ d) = if k == j then d else (j, w) ∷ delete k d

  unfoldable pub keys : Dict V → List String
  keys [] = []
  keys ((j, w) ∷ d) = j ∷ keys d

  pub lookup-insert :
      (k j : String) (v : V) (d : Dict V)
      → lookup j (insert k v d) ≡ (if j == k then some v else lookup j d)
  unfolding lookup insert
  lookup-insert k j v [] = refl
  lookup-insert k j v ((i, w) ∷ d) = ground (arith, lookup-insert k j v d)

  pub lookup-delete :
      (k j : String) (d : Dict V) → (j == k) ≡ false → lookup j (delete k d) ≡ lookup j d
  unfolding lookup delete
  lookup-delete k j [] h = refl
  lookup-delete k j ((i, w) ∷ d) h = ground (arith, lookup-delete k j d)

  pub lookup-keys : (k : String) (d : Dict V) → contains (keys d) k ≡ given (lookup k d)
  unfolding lookup keys
  lookup-keys k [] = refl
  lookup-keys k ((i, w) ∷ d) = ground (arith, lookup-keys k d)

  pub keys-insert :
      (k j : String) (v : V) (d : Dict V)
      → contains (keys (insert k v d)) j ≡ (j == k || contains (keys d) j)
  unfolding keys insert
  keys-insert k j v [] = refl
  keys-insert k j v ((i, w) ∷ d) = ground (arith, keys-insert k j v d)

  pub Distinct-insert-keys :
      (k : String) (v : V) (d : Dict V) → Distinct (keys d) → Distinct (keys (insert k v d))
  unfolding keys insert
  Distinct-insert-keys k v [] h = (refl, tt)
  Distinct-insert-keys k v ((i, w) ∷ d) h = elim (Bool-cases (k == i)) [
    | inl e ↦ rw e h
    | inr e ↦ rw e (ground (arith, keys-insert k i v d), Distinct-insert-keys k v d h.1)
  ]

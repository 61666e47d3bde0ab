-- ===== src/Parsing/Context/Temporary.antt =====
-- `reserved` and `set_temporarily` of dvc/parsing/context.py. The body of the `with` is a function of
-- the context; what it answers may be a result or an exception.
pub mod Restored
pub mod Same
use dvc.Base.{
  ◌≡◌, refl, sym, ap, ◌∙◌, String, Bool, true, false, Option, none, some, List, [], ◌∷◌, ◌++◌, ◌==◌,
  string_eq, contains, given, not, Bool-cases, Option-cases, inl, inr, arith, if◌then◌else◌,
}
use dvc.Parsing.Context.{
  Meta, RawFields, Node, Fields, no_fields, entry, get, put, pop, convert_fields, Context, matching,
}

-- `update` of a MutableMapping.
unfoldable pub update_fields : Fields → Fields → Fields
unfolding put
update_fields no_fields into = into
update_fields (entry k n fs) into = update_fields fs (put k n into)

unfoldable pub field_keys : Fields → List String
field_keys no_fields = []
field_keys (entry k n fs) = k ∷ field_keys fs

-- `{key: self[key] for key in to_set if key not in non_existing}`
unfoldable pub entry_if : String → Option Node → Fields → Fields
entry_if k none rest = rest
entry_if k (some n) rest = entry k n rest

unfoldable pub previous : List String → Fields → Fields
unfolding get entry_if
previous [] fs = no_fields
previous (k ∷ ks) fs = entry_if k (get k fs) (previous ks fs)

unfoldable pub pop_all : List String → Fields → Fields
unfolding pop
pop_all [] fs = fs
pop_all (k ∷ ks) fs = pop_all ks (pop k fs)

-- `self._reserved_keys.pop(key)`, which raises KeyError where there is none.
unfoldable pub pop_reserved : String → List String → Option (List String)
pop_reserved k [] = none
pop_reserved k (j ∷ ks) =
    let rest = pop_reserved k ks in
    if k == j then some ks else elim rest [ none ↦ none | some ks' ↦ some (j ∷ ks') ]

-- The keys are released one by one; `false` for a KeyError.
unfoldable pub release : List String → List String → Bool × List String
unfolding pop_reserved
release [] ks = (true, ks)
release (k ∷ new) ks = elim (pop_reserved k ks) [ none ↦ (false, ks) | some ks' ↦ release new ks' ]

-- `update(prev)` and the pops, after the body.
unfoldable pub restore : List String → Context → Context → Context
unfolding matching get previous update_fields pop_all
restore ks ctx ctx' = record ctx' {
  fields =
      pop_all (matching (λ k. not (given (get k ctx.fields))) ks)
        (update_fields (previous ks ctx.fields) ctx'.fields);
}

-- What a `with` ends in.
pub data Exit (A : Type 0) : Type 0 where
  finished : A → Exit A
  key_error : Exit A

-- The keys of `dict.fromkeys`: each once, where it comes first.
unfoldable pub from_keys : List String → List String
unfolding matching
from_keys [] = []
from_keys (k ∷ ks) = k ∷ matching (λ j. not (j == k)) (from_keys ks)

module _ {A : Type 0} where
  unfoldable pub reserved : List String → (Context → A × Context) → Context → Exit A × Context
  unfolding matching release from_keys
  reserved keys body ctx =
      let new = from_keys (matching (λ k. not (contains ctx.reserved_keys k)) keys) in
      let (a, ctx') = body (record ctx { reserved_keys = ctx.reserved_keys ++ new }) in
      let (ended, left) = release new ctx'.reserved_keys in
      (if ended then finished a else key_error, record ctx' { reserved_keys = left })

  -- `with cm`
  unfoldable pub entered : Bool → List String → (Context → A × Context) → Context → Exit A × Context
  unfolding reserved
  entered true keys body ctx = reserved keys body ctx
  entered false keys body ctx = let (a, ctx') = body ctx in (finished a, ctx')

  -- `set_temporarily(to_set)`, on `CtxDict(to_set)`, whose keys are those of `to_set`.
  unfoldable pub set_temporarily :
      Fields → Bool → (Context → A × Context) → Context → Exit A × Context
  unfolding field_keys update_fields entered restore
  set_temporarily temp reserve body ctx =
      let (a, ctx') =
        entered reserve (field_keys temp) body
          (record ctx { fields = update_fields temp ctx.fields }) in
      (a, restore (field_keys temp) ctx ctx')

-- ===== src/Parsing/Context.antt =====
-- The containers of dvc/parsing/context.py. Keys that are no texts are left out, as `__setitem__`
-- leaves them out, and so are the values that `_convert` refuses. `strip` and `int` are Python's, the
-- latter for numbers that are not negative. What is tracked for the interpolation is left out.
pub mod Merge
pub mod Imports
pub mod Temporary
pub mod Laws
pub mod Distinct
pub mod Related
pub mod Kept
pub mod Again
pub mod Errors
use dvc.Base.{
  ℕ, zero, suc, String, Bool, true, false, Option, none, some, List, [], ◌∷◌, ◌++◌, ◌==◌, string_eq,
  contains, or_raise, Result, return, raise, then_result, fmap, given, if◌then◌else◌,
}
use dvc.Base.Dict.{Dict}

-- The primitive values: None, booleans, texts, and numbers by their texts.
pub data Primitive : Type 0 where
  null : Primitive
  bool : Bool → Primitive
  number : String → Primitive
  str : String → Primitive

-- A step of a path: a key, or the number of an item.
pub data Step : Type 0 where
  key : String → Step
  index : ℕ → Step

pub record Meta : Type 0 where
  pub source : Option String
  pub dpaths : List Step
  pub local : Bool

unfoldable pub update_path : Meta → Step → Meta
update_path meta path = record meta { dpaths = meta.dpaths ++ path ∷ [] }

-- What YAML gives.
mutual
  pub data Raw : Type 0 where
    primitive : Primitive → Raw
    list : RawItems → Raw
    dict : RawFields → Raw

  pub data RawItems : Type 0 where
    nil : RawItems
    cons : Raw → RawItems → RawItems

  pub data RawFields : Type 0 where
    end : RawFields
    field : String → Raw → RawFields → RawFields

-- Value, CtxList and CtxDict.
mutual
  pub data Node : Type 0 where
    value : Primitive → Meta → Node
    ctx_list : Items → Meta → Node
    ctx_dict : Fields → Meta → Node

  pub data Items : Type 0 where
    no_items : Items
    item : Node → Items → Items

  pub data Fields : Type 0 where
    no_fields : Fields
    entry : String → Node → Fields → Fields

unfoldable pub get : String → Fields → Option Node
get k no_fields = none
get k (entry j n fs) = if k == j then some n else get k fs

-- `data[k] = node`
unfoldable pub put : String → Node → Fields → Fields
put k n no_fields = entry k n no_fields
put k n (entry j m fs) = if k == j then entry j n fs else entry j m (put k n fs)

-- `data.pop(k, None)`
unfoldable pub pop : String → Fields → Fields
pop k no_fields = no_fields
pop k (entry j m fs) = if k == j then fs else entry j m (pop k fs)

unfoldable pub get_item : ℕ → Items → Option Node
get_item i no_items = none
get_item zero (item n ns) = some n
get_item (suc i) (item n ns) = get_item i ns

-- `_convert_with_meta`, and the constructors of the containers: the meta of a part has its path.
unfoldable mutual
  unfolding update_path put

  pub convert : Raw → Meta → Node
  convert (primitive p) meta = value p meta
  convert (list xs) meta = ctx_list (convert_items xs 0 meta) meta
  convert (dict fs) meta = ctx_dict (convert_fields fs meta no_fields) meta

  pub convert_items : RawItems → ℕ → Meta → Items
  convert_items nil i meta = no_items
  convert_items (cons x xs) i meta =
      item (convert x (update_path meta (index i))) (convert_items xs (suc i) meta)

  pub convert_fields : RawFields → Meta → Fields → Fields
  convert_fields end meta done = done
  convert_fields (field k x fs) meta done =
      convert_fields fs meta (put k (convert x (update_path meta (key k))) done)

-- The `value` property.
unfoldable mutual
  pub unwrap : Node → Raw
  unwrap (value p meta) = primitive p
  unwrap (ctx_list ns meta) = list (unwrap_items ns)
  unwrap (ctx_dict fs meta) = dict (unwrap_fields fs)

  pub unwrap_items : Items → RawItems
  unwrap_items no_items = nil
  unwrap_items (item n ns) = cons (unwrap n) (unwrap_items ns)

  pub unwrap_fields : Fields → RawFields
  unwrap_fields no_fields = end
  unwrap_fields (entry k n fs) = field k (unwrap n) (unwrap_fields fs)

-- ContextError and its classes; a merge error has the key.
pub data ContextError : Type 0 where
  reserved_key_error : List String → ContextError
  merge_error : String → ContextError
  params_load_error : ContextError
  key_not_in_context : ContextError
  vars_already_loaded : ContextError
  -- An AttributeError: `imports[path].extend` of a None.
  extend_none : ContextError

module _ (strip : String → String) (to_int : String → Option ℕ) where
  -- `select`, on the parts of the key between its dots.
  unfoldable pub select : Node → List String → Result ContextError Node
  unfolding get get_item
  select n [] = return n
  select (value p meta) (part ∷ parts) = raise key_not_in_context
  select (ctx_list ns meta) (part ∷ parts) =
      or_raise key_not_in_context (to_int (strip part))
        λ i. or_raise key_not_in_context (get_item i ns) λ d. select d parts
  select (ctx_dict fs meta) (part ∷ parts) =
      or_raise key_not_in_context (get (strip part) fs) λ d. select d parts

-- `_merge`
unfoldable mutual
  unfolding get put

  pub merge_fields : Bool → Fields → Fields → Result ContextError Fields
  merge_fields overwrite no_fields into = return into
  merge_fields overwrite (entry k val update) into =
      then_result (merge_value overwrite k val (get k into))
        λ n. merge_fields overwrite update (put k n into)

  pub merge_value : Bool → String → Node → Option Node → Result ContextError Node
  merge_value overwrite k (ctx_dict fs meta) (some (ctx_dict into meta')) =
      fmap (λ fs'. ctx_dict fs' meta') (merge_fields overwrite fs into)
  merge_value overwrite k val none = return val
  merge_value true k val (some old) = return val
  merge_value false k val (some old) = raise (merge_error k)

-- `imports` has the keys that are taken from a file, None for the whole file.
pub record Context : Type 0 where
  pub fields : Fields
  pub imports : Dict (Option (List String))
  pub reserved_keys : List String

-- The keys of both, in the order of the first.
unfoldable pub matching : (String → Bool) → List String → List String
matching p [] = []
matching p (k ∷ ks) = let rest = matching p ks in if p k then k ∷ rest else rest

unfoldable pub raise_reserved : List String → Result ContextError Unit
raise_reserved [] = return tt
raise_reserved (k ∷ ks) = raise (reserved_key_error (k ∷ ks))

unfoldable pub merge_update : Bool → Fields → Context → Result ContextError Context
unfolding matching raise_reserved get merge_fields
merge_update overwrite other ctx =
    then_result (raise_reserved (matching (λ k. given (get k other)) ctx.reserved_keys))
      λ _. fmap (λ fs. record ctx { fields = fs }) (merge_fields overwrite other ctx.fields)

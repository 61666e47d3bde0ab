-- ===== src/Parsing/Context/Imports.antt =====
-- Files of variables (`load_from`, `merge_from`, `check_loaded` and `load_from_vars` of
-- dvc/parsing/context.py). What stands at a path, and the texts of a path and of its keys, are the file
-- system's and Python's to tell: they are parameters.
use Prim.Native.String as Native
use dvc.Base.{
  ℕ, suc, String, Bool, true, false, Option, none, some, List, [], ◌∷◌, ◌++◌, ◌==◌, ◌||◌, ◌&&◌, not,
  string_eq, contains, any, or_raise, Result, return, raise, then_result, fmap, if◌then◌else◌,
}
use dvc.Base.Dict
use dvc.Base.Dict.{Dict}
use dvc.Parsing.Context.{
  Raw, primitive, list, dict, RawFields, end, field, no_fields, convert_fields, ContextError,
  params_load_error, vars_already_loaded, extend_none, Context, merge_update,
}

pub data Entry : Type 0 where
  missing : Entry
  directory : Entry
  file : Raw → Entry

unfoldable pub raw_get : String → RawFields → Option Raw
raw_get k end = none
raw_get k (field j x fs) = if k == j then some x else raw_get k fs

-- `{key: content[key] for key in select_keys}`
unfoldable pub select_fields : RawFields → List String → Result ContextError RawFields
unfolding raw_get
select_fields content [] = return end
select_fields content (k ∷ ks) =
    or_raise params_load_error (raw_get k content)
      λ x. fmap (λ rest. field k x rest) (select_fields content ks)

-- No list, and the empty one, are false.
unfoldable pub truthy_keys : Option (List String) → Bool
truthy_keys none = false
truthy_keys (some []) = false
truthy_keys (some (k ∷ ks)) = true

unfoldable pub keys_or_empty : Option (List String) → List String
keys_or_empty none = []
keys_or_empty (some ks) = ks

unfoldable pub load_data : Entry → Option (List String) → Result ContextError RawFields
unfolding select_fields truthy_keys keys_or_empty
load_data missing select_keys = raise params_load_error
load_data directory select_keys = raise params_load_error
load_data (file (primitive p)) select_keys = raise params_load_error
load_data (file (list xs)) select_keys = raise params_load_error
load_data (file (dict content)) select_keys =
    if truthy_keys select_keys
    then select_fields content (keys_or_empty select_keys)
    else return content

unfoldable pub load_from : Entry → String → Option (List String) → Result ContextError Context
unfolding load_data convert_fields Dict.insert
load_from found path select_keys =
    fmap
      (λ content. record {
        fields =
            convert_fields content (record { source = some path; dpaths = []; local = false })
              no_fields;
        imports = Dict.insert path select_keys [];
        reserved_keys = [];
      })
      (load_data found select_keys)

-- `check_loaded`, on the keys that are imported and those that are asked for.
unfoldable pub check_loaded : Option (List String) → Option (List String) → Result ContextError Unit
unfolding truthy_keys keys_or_empty
check_loaded none keys = if truthy_keys keys then raise vars_already_loaded else return tt
check_loaded (some imported) keys =
    if not (truthy_keys keys) || any (contains imported) (keys_or_empty keys)
    then raise vars_already_loaded
    else return tt

-- The end of `merge_from`: the keys are remembered beside those that are known.
unfoldable pub extend_known :
    Option (Option (List String))
    → String
    → Option (List String)
    → Dict (Option (List String))
    → Result ContextError (Dict (Option (List String)))
unfolding truthy_keys keys_or_empty Dict.insert
extend_known none path cp imports = return (Dict.insert path cp imports)
extend_known (some none) path cp imports =
    if truthy_keys cp then raise extend_none else return imports
extend_known (some (some imported)) path cp imports = return (
    if truthy_keys cp
    then Dict.insert path (some (imported ++ keys_or_empty cp)) imports
    else imports)

unfoldable pub extend_import :
    String
    → Option (List String)
    → Dict (Option (List String))
    → Result ContextError (Dict (Option (List String)))
unfolding extend_known Dict.lookup
extend_import path cp imports = extend_known (Dict.lookup path imports) path cp imports

unfoldable pub non_empty : List String → List String
non_empty [] = []
non_empty (k ∷ ks) = let rest = non_empty ks in if k == "" then rest else k ∷ rest

-- `elif` by `elif`: loaded already and no more to do, refused, or to be loaded.
unfoldable pub already_there : Option (Option (List String)) → Option (List String) → Bool
unfolding truthy_keys
already_there none keys = false
already_there (some none) keys = not (truthy_keys keys)
already_there (some (some imported)) keys = false

unfoldable pub check_known :
    Option (Option (List String)) → Option (List String) → Result ContextError Unit
unfolding check_loaded
check_known none keys = return tt
check_known (some imported) keys = check_loaded imported keys

-- An item of `vars`.
pub data Vars : Type 0 where
  path_item : String → Vars
  fields_item : RawFields → Vars

-- `normpath (join wdir path)`, the two parts of an item at its colon, the parts of a text at its commas,
-- the text of a number, and what the file system has.
module _ (locate : String → String → String) (partition : String → String × String)
    (split : String → List String) (to_text : ℕ → String) (join : String → String → String)
    (at : String → Entry) where
  unfoldable pub select_keys_of : String → Option (List String)
  unfolding non_empty
  select_keys_of keys_str = if keys_str == "" then none else some (non_empty (split keys_str))

  -- The merge of a loaded file, whose own imports always have the path.
  unfoldable pub merge_loaded :
      String → Option (List String) → Context → Result ContextError Context
  unfolding load_from merge_update extend_import Dict.lookup
  merge_loaded path select_keys ctx = then_result (load_from (at path) path select_keys) λ loaded.
      then_result (merge_update false loaded.fields ctx) λ merged.
        or_raise extend_none (Dict.lookup path loaded.imports) λ cp.
          fmap (λ imports. record merged { imports = imports })
            (extend_import path cp merged.imports)

  unfoldable pub merge_path : String → Option (List String) → Context → Result ContextError Context
  unfolding already_there check_known merge_loaded Dict.lookup
  merge_path path select_keys ctx =
      if already_there (Dict.lookup path ctx.imports) select_keys
      then return ctx
      else then_result (check_known (Dict.lookup path ctx.imports) select_keys)
          (λ _. merge_loaded path select_keys ctx)

  unfoldable pub merge_from : String → String → Context → Result ContextError Context
  unfolding select_keys_of merge_path
  merge_from item wdir ctx =
      merge_path (locate wdir (partition item).0) (select_keys_of (partition item).1) ctx

  -- `f"{stage_name}{joiner}vars[{index}]"`
  unfoldable pub vars_source : String → ℕ → String
  vars_source stage_name i = Native.◌++◌ stage_name (
      Native.◌++◌ (if stage_name == "" then "" else ".")
        (Native.◌++◌ "vars[" (Native.◌++◌ (to_text i) "]")))

  unfoldable pub load_item : String → String → ℕ → Vars → Context → Result ContextError Context
  unfolding merge_from vars_source convert_fields merge_update
  load_item wdir stage_name i (path_item item) ctx = merge_from item wdir ctx
  load_item wdir stage_name i (fields_item content) ctx =
      merge_update false
        (convert_fields content
          (record { source = some (vars_source stage_name i); dpaths = []; local = true })
          no_fields)
        ctx

  unfoldable pub load_items :
      String → String → ℕ → List Vars → Context → Result ContextError Context
  unfolding load_item
  load_items wdir stage_name i [] ctx = return ctx
  load_items wdir stage_name i (item ∷ items) ctx =
      then_result (load_item wdir stage_name i item ctx)
        λ ctx'. load_items wdir stage_name (suc i) items ctx'

  -- `fs.exists`
  unfoldable pub exists : Entry → Bool
  exists missing = false
  exists directory = true
  exists (file x) = true

  unfoldable pub load_default : Option String → String → Context → Result ContextError Context
  unfolding exists merge_from
  load_default none wdir ctx = return ctx
  load_default (some default) wdir ctx =
      if not (default == "") && exists (at (join wdir default))
      then merge_from default wdir ctx
      else return ctx

  unfoldable pub load_from_vars :
      List Vars → String → Option String → Option String → Context → Result ContextError Context
  unfolding load_default load_items
  load_from_vars vars wdir stage_name default ctx =
      then_result (load_default default wdir ctx)
        λ ctx'. load_items wdir (stage_or_empty stage_name) 0 vars ctx'
    where
      stage_or_empty : Option String → String
      stage_or_empty none = ""
      stage_or_empty (some name) = name

-- ===== src/Parsing/Examples.antt =====
-- Contexts and files of variables.
use dvc.Base.{
  ◌≡◌, ◌≢◌, refl, ℕ, String, true, false, Option, none, some, List, [], ◌∷◌, ◌==◌, string_eq,
  contains, return, raise, if◌then◌else◌,
}
use dvc.Base.Dict
use dvc.Parsing.Context.{
  Primitive, null, number, str, key, Meta, update_path, Raw, primitive, list, dict, RawItems,
  RawFields, nil, end, field, cons, Node, value, ctx_list, ctx_dict, Items, no_items, item, Fields,
  no_fields, entry, get, put, pop, convert, convert_fields, unwrap, ContextError,
  reserved_key_error, merge_error, params_load_error, vars_already_loaded, extend_none, select,
  merge_fields, Context, matching, raise_reserved, merge_update,
}
use dvc.Parsing.Context.Imports.{
  Entry, missing, file, path_item, fields_item, raw_get, select_fields, truthy_keys, keys_or_empty,
  load_data, load_from, extend_known, extend_import, non_empty, already_there, check_known,
  select_keys_of, merge_loaded, merge_path, merge_from, load_item, load_items, load_default,
  load_from_vars,
}
use dvc.Parsing.Context.Temporary.{
  update_fields, field_keys, entry_if, previous, pop_all, pop_reserved, release, restore, finished,
  reserved, from_keys, entered, set_temporarily,
}
use dvc.Parsing.Context.Kept.{load_from_vars-kept, load_from_vars-reserved, merge_update-added}
use dvc.Parsing.Context.Again.{merge_from-again_whole, merge_from-again_keys}
use dvc.Parsing.Context.Errors.{load_from_vars-fine}
use dvc.Parsing.Context.Temporary.Restored.{get-set_temporarily, reserved-released}

abbrev plain : String → String
plain s = s

abbrev no_number : String → Option ℕ
no_number s = none

abbrev locate : String → String → String
locate wdir path = path

abbrev partition : String → String × String
partition s = if s == "params.yaml:train" then ("params.yaml", "train") else (s, "")

abbrev split : String → List String
split s = s ∷ []

abbrev to_text : ℕ → String
to_text i = "0"

-- `train: {lr: 1}` and `seed: 7`
abbrev params : RawFields
params =
    field "train" (dict (field "lr" (primitive (number "1")) end))
      (field "seed" (primitive (number "7")) end)

abbrev at : String → Entry
at path = if path == "params.yaml" then file (dict params) else missing

abbrev from_file : List String → Meta
from_file parts = record { source = some "params.yaml"; dpaths = steps parts; local = false }
  where
    steps : List String → List dvc.Parsing.Context.Step
    steps [] = []
    steps (k ∷ ks) = key k ∷ steps ks

abbrev here : Meta
here = record { source = none; dpaths = []; local = true }

-- `train: {epochs: 3}` and `item: a`, which is reserved.
abbrev before : Context
before = record {
  fields =
      entry "train" (ctx_dict (entry "epochs" (value (number "3") here) no_fields) here)
        (entry "item" (value (str "a") here) no_fields);
  imports = [];
  reserved_keys = "item" ∷ [];
}

abbrev loaded_fields : Fields
loaded_fields =
    entry "train"
      (ctx_dict
        (entry "epochs" (value (number "3") here)
          (entry "lr" (value (number "1") (from_file ("train" ∷ "lr" ∷ []))) no_fields))
        here)
      (entry "item" (value (str "a") here)
        (entry "seed" (value (number "7") (from_file ("seed" ∷ []))) no_fields))

abbrev after : Context
after = record {
  fields = loaded_fields;
  imports = ("params.yaml", none) ∷ [];
  reserved_keys = "item" ∷ [];
}

merge_test :
    merge_from locate partition split to_text locate at "params.yaml" "" before ≡ return after
unfolding merge_from merge_path already_there check_known merge_loaded select_keys_of load_from
    load_data convert_fields update_path put get merge_update matching raise_reserved merge_fields
    extend_import extend_known truthy_keys keys_or_empty Dict.lookup Dict.insert string_eq
merge_test = refl

vars_test :
    load_from_vars locate partition split to_text locate at
      (path_item "params.yaml" ∷ [])
      ""
      none
      none
      before
    ≡ return after
unfolding load_from_vars load_items load_item load_default merge_from merge_path already_there
    check_known merge_loaded select_keys_of load_from load_data convert_fields update_path put get
    merge_update matching raise_reserved merge_fields extend_import extend_known truthy_keys
    keys_or_empty Dict.lookup Dict.insert string_eq
vars_test = refl

load_from_vars-kept_example :
    select plain no_number (ctx_dict loaded_fields here) ("train" ∷ "epochs" ∷ [])
    ≡ return (value (number "3") here)
unfolding select get string_eq
load_from_vars-kept_example =
    load_from_vars-kept plain no_number locate partition split to_text locate at
      (path_item "params.yaml" ∷ []) "" none none before after vars_test here
      ("train" ∷ "epochs" ∷ []) (value (number "3") here) refl tt

load_from_vars-reserved_example :
    (after.reserved_keys ≡ before.reserved_keys)
    × ((k : String)
        → contains before.reserved_keys k ≡ true
        → get k after.fields ≡ get k before.fields)
load_from_vars-reserved_example =
    load_from_vars-reserved locate partition split to_text locate at (path_item "params.yaml" ∷ [])
      "" none none before after vars_test

load_from_vars-fine_example :
    load_from_vars locate partition split to_text locate at
      (path_item "params.yaml:train" ∷ [])
      ""
      none
      none
      after
    ≢ raise extend_none
load_from_vars-fine_example =
    load_from_vars-fine locate partition split to_text locate at
      (path_item "params.yaml:train" ∷ []) "" none none after

merge_from-again_whole_example :
    merge_from locate partition split to_text locate at "params.yaml" "" after ≡ return after
unfolding string_eq
merge_from-again_whole_example =
    merge_from-again_whole locate partition split to_text locate at "params.yaml" "" before after
      merge_test refl

-- `train: {lr: 1}`, from the same file.
abbrev partly : Context
partly = record {
  fields =
      entry "train"
        (ctx_dict
          (entry "epochs" (value (number "3") here)
            (entry "lr" (value (number "1") (from_file ("train" ∷ "lr" ∷ []))) no_fields))
          here)
        (entry "item" (value (str "a") here) no_fields);
  imports = ("params.yaml", some ("train" ∷ [])) ∷ [];
  reserved_keys = "item" ∷ [];
}

keys_test :
    merge_from locate partition split to_text locate at "params.yaml:train" "" before
    ≡ return partly
unfolding merge_from merge_path already_there check_known merge_loaded select_keys_of non_empty
    load_from load_data select_fields raw_get convert_fields update_path put get merge_update
    matching raise_reserved merge_fields extend_import extend_known truthy_keys keys_or_empty
    Dict.lookup Dict.insert string_eq
keys_test = refl

merge_from-again_keys_example :
    merge_from locate partition split to_text locate at "params.yaml:train" "" partly
    ≡ raise vars_already_loaded
unfolding truthy_keys select_keys_of non_empty string_eq
merge_from-again_keys_example =
    merge_from-again_keys locate partition split to_text locate at "params.yaml:train" "" before
      partly keys_test refl

-- A key that is there already, and a reserved one.
redefined_test :
    load_from_vars locate partition split to_text locate at
      (path_item "params.yaml" ∷ fields_item (field "seed" (primitive (number "8")) end) ∷ [])
      ""
      none
      none
      before
    ≡ raise (merge_error "seed")
unfolding load_from_vars load_items load_item load_default merge_from merge_path already_there
    check_known merge_loaded select_keys_of load_from load_data convert_fields update_path put get
    merge_update matching raise_reserved merge_fields extend_import extend_known truthy_keys
    keys_or_empty Dict.lookup Dict.insert string_eq
redefined_test = refl

reserved_test :
    load_from_vars locate partition split to_text locate at
      (fields_item (field "item" (primitive (number "8")) end) ∷ [])
      ""
      none
      none
      before
    ≡ raise (reserved_key_error ("item" ∷ []))
unfolding load_from_vars load_items load_item load_default convert_fields update_path put get
    merge_update matching raise_reserved string_eq
reserved_test = refl

overwritten_test :
    merge_update true (convert_fields params here no_fields) before
    ≡ return (record before {
      fields =
          entry "train"
            (ctx_dict
              (entry "epochs" (value (number "3") here) (
                entry "lr"
                  (value
                    (number "1")
                    (record { source = none; dpaths = key "train" ∷ key "lr" ∷ []; local = true }))
                  no_fields))
              here)
            (entry "item" (value (str "a") here) (
              entry "seed"
                (value
                  (number "7")
                  (record { source = none; dpaths = key "seed" ∷ []; local = true }))
                no_fields));
    })
unfolding convert_fields update_path put get merge_update matching raise_reserved merge_fields
    string_eq
overwritten_test = refl

merge_update-added_example :
    select plain no_number
      (ctx_dict
        (entry "train"
          (ctx_dict
            (entry "epochs" (value (number "3") here) (
              entry "lr"
                (value
                  (number "1")
                  (record { source = none; dpaths = key "train" ∷ key "lr" ∷ []; local = true }))
                no_fields))
            here)
          (entry "item" (value (str "a") here) (
            entry "seed"
              (value
                (number "7")
                (record { source = none; dpaths = key "seed" ∷ []; local = true }))
              no_fields)))
        here)
      ("train" ∷ "lr" ∷ [])
    ≡ return (
        value
          (number "1")
          (record { source = none; dpaths = key "train" ∷ key "lr" ∷ []; local = true }))
unfolding select convert_fields update_path put get string_eq
merge_update-added_example =
    merge_update-added plain no_number true params here before _ overwritten_test here
      ("train" ∷ "lr" ∷ [])
      (value (number "1")
        (record { source = none; dpaths = key "train" ∷ key "lr" ∷ []; local = true }))
      refl tt

abbrev nine : Fields
nine =
    entry "item"
      (value (number "9") (record { source = none; dpaths = key "item" ∷ []; local = true }))
      no_fields

-- The body of a `with` that looks up `item`, and forgets it.
abbrev forget : Context → Option Node × Context
forget ctx = (get "item" ctx.fields, record ctx { fields = pop "item" ctx.fields })

get-set_temporarily_example :
    get "item" (set_temporarily nine true (λ c. (get "item" c.fields, c)) before).1.fields
    ≡ some (value (str "a") here)
unfolding field_keys get string_eq
get-set_temporarily_example =
    get-set_temporarily nine true (λ c. (get "item" c.fields, c)) before (λ c d. d)
      (refl, (refl, tt)) "item"

set_temporarily_test :
    set_temporarily
      (convert_fields
        (field "item" (primitive (number "9")) (field "key" (primitive null) end))
        here
        no_fields)
      true
      forget
      (record before { reserved_keys = [] })
    ≡ (
      finished (
          some (
            value (number "9") (record { source = none; dpaths = key "item" ∷ []; local = true }))),
      record {
        fields =
            entry "train"
              (ctx_dict (entry "epochs" (value (number "3") here) no_fields) here)
              (entry "item" (value (str "a") here) no_fields);
        imports = [];
        reserved_keys = [];
      },
    )
unfolding set_temporarily field_keys convert_fields update_path put get pop update_fields entered
    reserved restore matching previous entry_if pop_all release pop_reserved from_keys string_eq
set_temporarily_test = refl

reserved_released_test :
    ((reserved ("item" ∷ "key" ∷ []) (λ c. (get "item" c.fields, c)) before).0
      ≡ finished (some (value (str "a") here)))
    × ((reserved ("item" ∷ "key" ∷ []) (λ c. (get "item" c.fields, c)) before).1.reserved_keys
        ≡ "item" ∷ [])
unfolding get string_eq from_keys matching
reserved_released_test =
    reserved-released ("item" ∷ "key" ∷ []) (λ c. (get "item" c.fields, c)) before (λ c. refl)

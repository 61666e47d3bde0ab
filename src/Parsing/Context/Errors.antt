-- ===== src/Parsing/Context/Errors.antt =====
-- Which errors the loading of variables (dvc/parsing/context.py) ends in.
use dvc.Base.{
  ◌≡◌, ◌≢◌, refl, sym, ap, any, contains, ◌||◌, ℕ, suc, String, Bool, true, false, Option, none,
  some, List, [], ◌∷◌, ◌&&◌, not, ◌==◌, string_eq, Result, return, raise, then_result, fmap,
  Bool-cases, Option-cases, inl, inr, arith, given,
}
use dvc.Base.Dict
use dvc.Base.Dict.{Dict}
use dvc.Parsing.Context.{
  RawFields, Node, value, ctx_list, ctx_dict, Fields, no_fields, entry, get, put, ContextError,
  vars_already_loaded, extend_none, merge_fields, merge_value, Context, matching, raise_reserved,
  merge_update, primitive, list, dict,
}
use dvc.Parsing.Context.Imports.{
  Entry, missing, directory, file, Vars, path_item, fields_item, raw_get, select_fields, load_data,
  load_from, merge_loaded, extend_import, extend_known, merge_path, already_there, check_known,
  check_loaded, truthy_keys, keys_or_empty, merge_from, select_keys_of, load_item, load_items,
  load_default, exists, load_from_vars,
}
use dvc.Parsing.Context.Related.{merge_update-eq-return}
use dvc.Parsing.Context.Again.{load_from-imports}

-- The call does not end in an AttributeError.
abbrev Fine : {A : Type 0} → Result ContextError A → Type 0
Fine r = r ≢ raise extend_none

module _ {A B : Type 0} where
  Fine-then_result :
      (r : Result ContextError A) (f : A → Result ContextError B)
      → Fine r
      → ((a : A) → r ≡ return a → Fine (f a))
      → Fine (then_result r f)
  Fine-then_result (return a) f h g = g a refl
  Fine-then_result (raise e) f h g = λ b. h (let q : e ≡ extend_none = ground arith in rw q refl)

  Fine-fmap : (r : Result ContextError A) (f : A → B) → Fine r → Fine (fmap f r)
  Fine-fmap (return a) f h = λ b. cc
  Fine-fmap (raise e) f h = λ b. h (let q : e ≡ extend_none = ground arith in rw q refl)

mutual
  unfolding merge_fields

  Fine-merge_fields :
      (overwrite : Bool) (update into : Fields) → Fine (merge_fields overwrite update into)
  Fine-merge_fields overwrite no_fields into = λ b. cc
  Fine-merge_fields overwrite (entry k val update) into =
      Fine-then_result (merge_value overwrite k val (get k into)) _
        (Fine-merge_value overwrite k val (get k into))
        (λ n _. Fine-merge_fields overwrite update (put k n into))

  Fine-merge_value :
      (overwrite : Bool) (k : String) (val : Node) (old : Option Node)
      → Fine (merge_value overwrite k val old)
  Fine-merge_value overwrite k (ctx_dict fs meta) (some (ctx_dict into meta')) =
      Fine-fmap (merge_fields overwrite fs into) _ (Fine-merge_fields overwrite fs into)
  Fine-merge_value true k (ctx_dict fs meta) (some (value p meta')) = λ b. cc
  Fine-merge_value true k (ctx_dict fs meta) (some (ctx_list ns meta')) = λ b. cc
  Fine-merge_value true k (ctx_list ns meta) (some old) = λ b. cc
  Fine-merge_value true k (value q meta) (some old) = λ b. cc
  Fine-merge_value false k (ctx_dict fs meta) (some (value p meta')) = λ b. cc
  Fine-merge_value false k (ctx_dict fs meta) (some (ctx_list ns meta')) = λ b. cc
  Fine-merge_value false k (ctx_list ns meta) (some old) = λ b. cc
  Fine-merge_value false k (value q meta) (some old) = λ b. cc
  Fine-merge_value overwrite k (ctx_dict fs meta) none = λ b. cc
  Fine-merge_value overwrite k (ctx_list ns meta) none = λ b. cc
  Fine-merge_value overwrite k (value q meta) none = λ b. cc

Fine-raise_reserved : (ks : List String) → Fine (raise_reserved ks)
unfolding raise_reserved
Fine-raise_reserved [] = λ b. cc
Fine-raise_reserved (k ∷ ks) = λ b. cc

Fine-merge_update :
    (overwrite : Bool) (other : Fields) (ctx : Context) → Fine (merge_update overwrite other ctx)
unfolding merge_update
Fine-merge_update overwrite other ctx =
    Fine-then_result (raise_reserved (matching (λ k. given (get k other)) ctx.reserved_keys)) _
      (Fine-raise_reserved _)
      (λ _ _.
        Fine-fmap (merge_fields overwrite other ctx.fields) _
          (Fine-merge_fields overwrite other ctx.fields))

Fine-select_fields : (content : RawFields) (ks : List String) → Fine (select_fields content ks)
unfolding select_fields
Fine-select_fields content [] = λ b. cc
Fine-select_fields content (k ∷ ks) = elim (Option-cases (raw_get k content)) [
  | inl e ↦ rw e (λ b. cc)
  | inr (x, e) ↦ rw e (Fine-fmap (select_fields content ks) _ (Fine-select_fields content ks))
]

Fine-load_data : (found : Entry) (keys : Option (List String)) → Fine (load_data found keys)
unfolding load_data
Fine-load_data missing keys = λ b. cc
Fine-load_data directory keys = λ b. cc
Fine-load_data (file (primitive p)) keys = λ b. cc
Fine-load_data (file (list xs)) keys = λ b. cc
Fine-load_data (file (dict content)) keys = elim (Bool-cases (truthy_keys keys)) [
  | inl e ↦ rw e (Fine-select_fields content (keys_or_empty keys))
  | inr e ↦ rw e (λ b. cc)
]

Fine-load_from :
    (found : Entry) (path : String) (keys : Option (List String)) → Fine (load_from found path keys)
unfolding load_from
Fine-load_from found path keys = Fine-fmap (load_data found keys) _ (Fine-load_data found keys)

Fine-check_loaded : (imported keys : Option (List String)) → Fine (check_loaded imported keys)
unfolding check_loaded
Fine-check_loaded none keys = elim (Bool-cases (truthy_keys keys)) [
  | inl e ↦ rw e (λ b. cc)
  | inr e ↦ rw e (λ b. cc)
]
Fine-check_loaded (some imported) keys =
    elim (Bool-cases (not (truthy_keys keys) || any (contains imported) (keys_or_empty keys))) [
      | inl e ↦ rw e (λ b. cc)
      | inr e ↦ rw e (λ b. cc)
    ]

Fine-check_known :
    (o : Option (Option (List String))) (keys : Option (List String)) → Fine (check_known o keys)
unfolding check_known
Fine-check_known none keys = λ b. cc
Fine-check_known (some imported) keys = Fine-check_loaded imported keys

-- Keys are not added to a file that is known whole: the check has refused them.
Fine-extend_known :
    (o : Option (Option (List String))) (path : String) (keys : Option (List String))
    (imports : Dict (Option (List String)))
    → check_known o keys ≡ return tt
    → Fine (extend_known o path keys imports)
unfolding extend_known check_known check_loaded
Fine-extend_known none path keys imports c = λ b. cc
Fine-extend_known (some none) path keys imports c = elim (Bool-cases (truthy_keys keys)) [
  | inl e ↦
      (let bad : ◌≡◌ {A = Result ContextError Unit} (raise vars_already_loaded) (return tt) =
          rw e at c in
        cc)
  | inr e ↦ rw e (λ b. cc)
]
Fine-extend_known (some (some known)) path keys imports c = λ b. cc

module _ (locate : String → String → String) (partition : String → String × String)
    (split : String → List String) (to_text : ℕ → String) (join : String → String → String)
    (at : String → Entry) where
  Fine-merge_loaded :
      (path : String) (keys : Option (List String)) (c : Context)
      → check_known (Dict.lookup path c.imports) keys ≡ return tt
      → Fine (merge_loaded locate partition split to_text join at path keys c)
  unfolding merge_loaded extend_import
  Fine-merge_loaded path keys c k =
      Fine-then_result (load_from (at path) path keys) _ (Fine-load_from (at path) path keys)
        λ loaded l.
          Fine-then_result (merge_update false loaded.fields c) _
            (Fine-merge_update false loaded.fields c)
            λ next m.
              let (_, _, _, n) = merge_update-eq-return false loaded.fields c next m in
              let known : Dict.lookup path next.imports ≡ Dict.lookup path c.imports =
                ap (λ d. Dict.lookup path d.imports) (sym n) in
              rw (load_from-imports (at path) path keys loaded l) (
                Fine-fmap _ (λ imports. record next { imports = imports })
                  (Fine-extend_known (Dict.lookup path next.imports) path keys next.imports
                    (rw known k)))

  Fine-merge_from :
      (item wdir : String) (c : Context)
      → Fine (merge_from locate partition split to_text join at item wdir c)
  unfolding merge_from merge_path
  Fine-merge_from item wdir c =
      let path = locate wdir (partition item).0 in
      let keys = select_keys_of locate partition split to_text join at (partition item).1 in
      elim (Bool-cases (already_there (Dict.lookup path c.imports) keys)) [
        | inl e ↦ rw e (λ b. cc)
        | inr e ↦ rw e (
            Fine-then_result (check_known (Dict.lookup path c.imports) keys) _
              (Fine-check_known (Dict.lookup path c.imports) keys)
              (λ _ k. Fine-merge_loaded path keys c k))
      ]

  Fine-load_items :
      (wdir stage : String) (i : ℕ) (vars : List Vars) (c : Context)
      → Fine (load_items locate partition split to_text join at wdir stage i vars c)
  unfolding load_items load_item
  Fine-load_items wdir stage i [] c = λ b. cc
  Fine-load_items wdir stage i (path_item item ∷ vars) c =
      Fine-then_result (merge_from locate partition split to_text join at item wdir c) _
        (Fine-merge_from item wdir c) (λ c' _. Fine-load_items wdir stage (suc i) vars c')
  Fine-load_items wdir stage i (fields_item content ∷ vars) c =
      Fine-then_result (merge_update false _ c) _ (Fine-merge_update false _ c)
        (λ c' _. Fine-load_items wdir stage (suc i) vars c')

  Fine-load_default :
      (default : Option String) (wdir : String) (c : Context)
      → Fine (load_default locate partition split to_text join at default wdir c)
  unfolding load_default
  Fine-load_default none wdir c = λ b. cc
  Fine-load_default (some default) wdir c =
      elim (Bool-cases (
        not (default == "")
        && exists locate partition split to_text join at (at (join wdir default)))) [
          | inl e ↦ rw e (Fine-merge_from default wdir c)
          | inr e ↦ rw e (λ b. cc)
        ]

-- The keys of a file that is imported whole are never extended: whatever the files hold, load_from_vars
-- returns or raises a ContextError, and never ends in an AttributeError.
pub load_from_vars-fine :
    (locate : String → String → String) (partition : String → String × String)
    (split : String → List String) (to_text : ℕ → String) (join : String → String → String)
    (at : String → Entry) (vars : List Vars) (wdir : String) (stage default : Option String)
    (c : Context)
    → load_from_vars locate partition split to_text join at vars wdir stage default c
      ≢ raise extend_none
unfolding load_from_vars
load_from_vars-fine locate partition split to_text join at vars wdir stage default c =
    Fine-then_result (load_default locate partition split to_text join at default wdir c) _
      (Fine-load_default locate partition split to_text join at default wdir c)
      (λ c' _. Fine-load_items locate partition split to_text join at wdir _ 0 vars c')

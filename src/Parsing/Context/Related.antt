-- ===== src/Parsing/Context/Related.antt =====
-- Relations of contexts that the loading of variables (dvc/parsing/context.py) keeps.
use dvc.Base.{
  ◌≡◌, refl, subst, ℕ, suc, String, Bool, false, Option, none, some, List, [], ◌∷◌, string_eq,
  given, or_raise, Result, return, then_result-eq-return, Bool-cases, inl, inr, arith, ◌&&◌, not,
  ◌==◌,
}
use dvc.Base.Dict
use dvc.Base.Dict.{Dict}
use dvc.Parsing.Context.{
  Fields, get, ContextError, extend_none, merge_fields, Context, matching, raise_reserved,
  merge_update,
}
use dvc.Parsing.Context.Merge.{fmap-eq-return}
use dvc.Parsing.Context.Imports.{
  Entry, Vars, path_item, fields_item, load_from, merge_loaded, extend_import, merge_path,
  already_there, check_known, merge_from, select_keys_of, load_item, load_items, load_default,
  exists, load_from_vars,
}

pub merge_update-eq-return :
    (overwrite : Bool) (other : Fields) (ctx ctx' : Context)
    → merge_update overwrite other ctx ≡ return ctx'
    → (fs : Fields) × (raise_reserved (matching (λ k. given (get k other)) ctx.reserved_keys)
        ≡ return tt)
      × (merge_fields overwrite other ctx.fields ≡ return fs)
      × (record ctx { fields = fs } ≡ ctx')
unfolding merge_update
merge_update-eq-return overwrite other ctx ctx' h =
    let (u, r, h') = then_result-eq-return _ _ h in
    let (fs, m, e) = fmap-eq-return _ (λ fs. record ctx { fields = fs }) h' in (fs, r, m, e)

pub or_raise-eq-return :
    {A B : Type 0} (e : ContextError) (o : Option A) (f : A → Result ContextError B) {b : B}
    → or_raise e o f ≡ return b
    → (a : A) × (o ≡ some a) × (f a ≡ return b)
or_raise-eq-return e none f h = cc
or_raise-eq-return e (some a) f h = (a, refl, h)

-- A relation of contexts that a merge without overwriting keeps, whatever becomes of the imports, holds
-- from the start to the end of a loading.
module _ (R : Context → Context → Type 0) (same : (c : Context) → R c c)
    (chain : (a b c : Context) → R a b → R b c → R a c)
    (merged : (other : Fields) (c c' : Context) → merge_update false other c ≡ return c' → R c c')
    (forget : (c c' : Context) (i : Dict (Option (List String)))
      → R c c'
      → R c (record c' { imports = i }))
    (locate : String → String → String) (partition : String → String × String)
    (split : String → List String) (to_text : ℕ → String) (join : String → String → String)
    (at : String → Entry) where
  merge_loaded_related :
      (path : String) (keys : Option (List String)) (c c' : Context)
      → merge_loaded locate partition split to_text join at path keys c ≡ return c'
      → R c c'
  unfolding merge_loaded
  merge_loaded_related path keys c c' h =
      let (loaded, _, h1) = then_result-eq-return (load_from (at path) path keys) _ h in
      let (next, m, h2) = then_result-eq-return (merge_update false loaded.fields c) _ h1 in
      let (cp, _, h3) = or_raise-eq-return extend_none (Dict.lookup path loaded.imports) _ h2 in
      let (imports, _, e) =
        fmap-eq-return (extend_import path cp next.imports) (λ i. record next { imports = i }) h3 in
      subst (R c) e (forget c next imports (merged loaded.fields c next m))

  merge_from_related :
      (item wdir : String) (c c' : Context)
      → merge_from locate partition split to_text join at item wdir c ≡ return c'
      → R c c'
  unfolding merge_from merge_path
  merge_from_related item wdir c c' h =
      let path = locate wdir (partition item).0 in
      let keys = select_keys_of locate partition split to_text join at (partition item).1 in
      elim (Bool-cases (already_there (Dict.lookup path c.imports) keys)) [
        | inl e ↦
            (let q : c ≡ c' =
                (let r : ◌≡◌ {A = Result ContextError Context} (return c) (return c') = rw e at h in
                  ground arith) in
              subst (R c) q (same c))
        | inr e ↦
            (let (_, _, h') =
                then_result-eq-return (check_known (Dict.lookup path c.imports) keys) _
                  (rw e at h) in
              merge_loaded_related path keys c c' h')
      ]

  load_items_related :
      (wdir stage : String) (i : ℕ) (vars : List Vars) (c c' : Context)
      → load_items locate partition split to_text join at wdir stage i vars c ≡ return c'
      → R c c'
  unfolding load_items load_item
  load_items_related wdir stage i [] c c' h =
      let q : c ≡ c' = ground arith in subst (R c) q (same c)
  load_items_related wdir stage i (path_item item ∷ vars) c c' h =
      let (c'', m, h') =
        then_result-eq-return (merge_from locate partition split to_text join at item wdir c) _ h in
      chain c c'' c' (merge_from_related item wdir c c'' m)
        (load_items_related wdir stage (suc i) vars c'' c' h')
  load_items_related wdir stage i (fields_item content ∷ vars) c c' h =
      let (c'', m, h') = then_result-eq-return (merge_update false _ c) _ h in
      chain c c'' c' (merged _ c c'' m) (load_items_related wdir stage (suc i) vars c'' c' h')

  load_default_related :
      (default : Option String) (wdir : String) (c c' : Context)
      → load_default locate partition split to_text join at default wdir c ≡ return c'
      → R c c'
  unfolding load_default
  load_default_related none wdir c c' h = let q : c ≡ c' = ground arith in subst (R c) q (same c)
  load_default_related (some default) wdir c c' h =
      elim (Bool-cases (
        not (default == "")
        && exists locate partition split to_text join at (at (join wdir default)))) [
          | inl e ↦ merge_from_related default wdir c c' (rw e at h)
          | inr e ↦
              (let r : ◌≡◌ {A = Result ContextError Context} (return c) (return c') = rw e at h in
                let q : c ≡ c' = ground arith in subst (R c) q (same c))
        ]

  pub load_from_vars_related :
      (vars : List Vars) (wdir : String) (stage default : Option String) (c c' : Context)
      → load_from_vars locate partition split to_text join at vars wdir stage default c ≡ return c'
      → R c c'
  unfolding load_from_vars
  load_from_vars_related vars wdir stage default c c' h =
      let (c'', m, h') =
        then_result-eq-return (load_default locate partition split to_text join at default wdir c) _
          h in
      chain c c'' c' (load_default_related default wdir c c'' m)
        (load_items_related wdir _ 0 vars c'' c' h')

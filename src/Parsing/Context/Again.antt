-- ===== src/Parsing/Context/Again.antt =====
-- Loading one file twice (`merge_from` of dvc/parsing/context.py).
use dvc.Base.{
  ◌≡◌, refl, sym, ap, subst, ◌∙◌, String, ℕ, true, false, Option, none, some, List, [], ◌∷◌, ◌++◌,
  contains-append, string_eq, Result, return, raise, then_result-eq-return, Bool-cases, inl, inr,
  arith, if◌then◌else◌,
}
use dvc.Base.Dict
use dvc.Base.Dict.{Dict, lookup-insert}
use dvc.Parsing.Context.{ContextError, vars_already_loaded, extend_none, Context, merge_update}
use dvc.Parsing.Context.Merge.{fmap-eq-return}
use dvc.Parsing.Context.Related.{merge_update-eq-return, or_raise-eq-return}
use dvc.Parsing.Context.Imports.{
  Entry, load_data, load_from, merge_loaded, extend_import, extend_known, merge_path, already_there,
  check_known, check_loaded, merge_from, select_keys_of, truthy_keys, keys_or_empty,
}

-- What `imports` has for a file after the keys are remembered.
extended : Option (Option (List String)) → Option (List String) → Option (List String)
extended none keys = keys
extended (some none) keys = none
extended (some (some imported)) keys =
    if truthy_keys keys then some (imported ++ keys_or_empty keys) else some imported

lookup-extend_known :
    (o : Option (Option (List String))) (path : String) (keys : Option (List String))
    (imports imports' : Dict (Option (List String)))
    → Dict.lookup path imports ≡ o
    → extend_known o path keys imports ≡ return imports'
    → Dict.lookup path imports' ≡ some (extended o keys)
unfolding extend_known extended
lookup-extend_known none path keys imports imports' q h =
    let e : Dict.insert path keys imports ≡ imports' = ground arith in
    rw (← e) (ground (arith, lookup-insert path path keys imports))
lookup-extend_known (some none) path keys imports imports' q h =
    elim (Bool-cases (truthy_keys keys)) [
      | inl t ↦
          (let r : ◌≡◌ {A = Result ContextError (Dict (Option (List String)))} (raise extend_none)
                (return imports') =
              rw t at h in
            cc)
      | inr t ↦
          (let r : ◌≡◌ {A = Result ContextError (Dict (Option (List String)))} (return imports)
                (return imports') =
              rw t at h in
            let e : imports ≡ imports' = ground arith in rw (← e) q)
    ]
lookup-extend_known (some (some known)) path keys imports imports' q h =
    elim (Bool-cases (truthy_keys keys)) [
      | inl t ↦
          (let r : ◌≡◌ {A = Result ContextError (Dict (Option (List String)))}
                (return (Dict.insert path (some (known ++ keys_or_empty keys)) imports))
                (return imports') =
              rw t at h in
            let e : Dict.insert path (some (known ++ keys_or_empty keys)) imports ≡ imports' =
              ground arith in
            rw (t, ← e)
              (ground
                (arith, lookup-insert path path (some (known ++ keys_or_empty keys)) imports)))
      | inr t ↦
          (let r : ◌≡◌ {A = Result ContextError (Dict (Option (List String)))} (return imports)
                (return imports') =
              rw t at h in
            let e : imports ≡ imports' = ground arith in rw (t, ← e) q)
    ]

pub load_from-imports :
    (found : Entry) (path : String) (keys : Option (List String)) (loaded : Context)
    → load_from found path keys ≡ return loaded
    → Dict.lookup path loaded.imports ≡ some keys
unfolding load_from Dict.insert Dict.lookup
load_from-imports found path keys loaded h =
    let (content, _, e) = fmap-eq-return (load_data found keys) _ h in rw (← e) (ground arith)

known_again :
    (o : Option (Option (List String))) (keys : Option (List String))
    → check_known o keys ≡ return tt
    → truthy_keys keys ≡ true
    → check_known (some (extended o keys)) keys ≡ raise vars_already_loaded
unfolding check_known check_loaded extended truthy_keys keys_or_empty
known_again o none c t = cc
known_again o (some []) c t = cc
known_again none (some (k ∷ ks)) c t = ground arith
known_again (some none) (some (k ∷ ks)) c t = cc
known_again (some (some known)) (some (k ∷ ks)) c t =
    ground (arith, contains-append known (k ∷ ks) k)

-- The merge goes on only where no keys are asked of a file that is known whole.
whole_again :
    (o : Option (Option (List String)))
    → already_there o none ≡ false
    → check_known o none ≡ return tt
    → already_there (some (extended o none)) none ≡ true
unfolding already_there check_known check_loaded extended truthy_keys keys_or_empty
whole_again none a c = refl
whole_again (some none) a c = cc
whole_again (some (some known)) a c = cc

already_there_extended :
    (o : Option (Option (List String))) (keys : Option (List String))
    → truthy_keys keys ≡ true
    → already_there o keys ≡ false
unfolding already_there
already_there_extended none keys t = refl
already_there_extended (some none) keys t = rw t refl
already_there_extended (some (some known)) keys t = refl

module _ (locate : String → String → String) (partition : String → String × String)
    (split : String → List String) (to_text : ℕ → String) (join : String → String → String)
    (at : String → Entry) where
  lookup-merge_loaded :
      (path : String) (keys : Option (List String)) (c c' : Context)
      → merge_loaded locate partition split to_text join at path keys c ≡ return c'
      → Dict.lookup path c'.imports ≡ some (extended (Dict.lookup path c.imports) keys)
  unfolding merge_loaded extend_import
  lookup-merge_loaded path keys c c' h =
      let (loaded, l, h1) = then_result-eq-return (load_from (at path) path keys) _ h in
      let (next, m, h2) = then_result-eq-return (merge_update false loaded.fields c) _ h1 in
      let (cp, k, h3) = or_raise-eq-return extend_none (Dict.lookup path loaded.imports) _ h2 in
      let (imports, i, e) =
        fmap-eq-return (extend_import path cp next.imports) (λ i. record next { imports = i }) h3 in
      let (_, _, _, n) = merge_update-eq-return false loaded.fields c next m in
      let same : some keys ≡ some cp = sym (load_from-imports (at path) path keys loaded l) ∙ k in
      let q : cp ≡ keys = ground arith in
      let known : Dict.lookup path next.imports ≡ Dict.lookup path c.imports =
        ap (λ d. Dict.lookup path d.imports) (sym n) in
      ap (λ d. Dict.lookup path d.imports) (sym e)
      ∙ (lookup-extend_known (Dict.lookup path next.imports) path cp next.imports imports refl i
          ∙ rw (known, q) refl)

  merge_path-again_whole :
      (path : String) (c c' : Context)
      → merge_path locate partition split to_text join at path none c ≡ return c'
      → merge_path locate partition split to_text join at path none c' ≡ return c'
  unfolding merge_path
  merge_path-again_whole path c c' h =
      elim (Bool-cases (already_there (Dict.lookup path c.imports) none)) [
        | inl e ↦
            (let r : ◌≡◌ {A = Result ContextError Context} (return c) (return c') = rw e at h in
              let q : c ≡ c' = ground arith in
              subst (λ d. merge_path locate partition split to_text join at path none d ≡ return d)
                q (rw e refl))
        | inr e ↦
            (let (_, k, h') =
                then_result-eq-return (check_known (Dict.lookup path c.imports) none) _
                  (rw e at h) in
              rw
                (
                  lookup-merge_loaded path none c c' h',
                  whole_again (Dict.lookup path c.imports) e k,
                )
                refl)
      ]

  merge_path-again_keys :
      (path : String) (keys : Option (List String)) (c c' : Context)
      → merge_path locate partition split to_text join at path keys c ≡ return c'
      → truthy_keys keys ≡ true
      → merge_path locate partition split to_text join at path keys c' ≡ raise vars_already_loaded
  unfolding merge_path
  merge_path-again_keys path keys c c' h t =
      let e = already_there_extended (Dict.lookup path c.imports) keys t in
      let (_, k, h') =
        then_result-eq-return (check_known (Dict.lookup path c.imports) keys) _ (rw e at h) in
      rw
        (
          lookup-merge_loaded path keys c c' h',
          already_there_extended (some (extended (Dict.lookup path c.imports) keys)) keys t,
          known_again (Dict.lookup path c.imports) keys k t,
        )
        refl

-- A whole file may be loaded again: where merge_from returned for an item without keys, the same call
-- returns once more and changes nothing.
pub merge_from-again_whole :
    (locate : String → String → String) (partition : String → String × String)
    (split : String → List String) (to_text : ℕ → String) (join : String → String → String)
    (at : String → Entry) (item wdir : String) (c c' : Context)
    → merge_from locate partition split to_text join at item wdir c ≡ return c'
    → (partition item).1 ≡ ""
    → merge_from locate partition split to_text join at item wdir c' ≡ return c'
unfolding merge_from select_keys_of
merge_from-again_whole locate partition split to_text join at item wdir c c' h w =
    let none_asked : select_keys_of locate partition split to_text join at (partition item).1
        ≡ none =
      ground arith in
    rw none_asked (
      merge_path-again_whole locate partition split to_text join at (locate wdir (partition item).0)
        c c' (rw none_asked at h))

-- A key is loaded once: where merge_from returned for an item with keys, the same call raises
-- VarsAlreadyLoaded afterwards.
pub merge_from-again_keys :
    (locate : String → String → String) (partition : String → String × String)
    (split : String → List String) (to_text : ℕ → String) (join : String → String → String)
    (at : String → Entry) (item wdir : String) (c c' : Context)
    → merge_from locate partition split to_text join at item wdir c ≡ return c'
    → truthy_keys (select_keys_of locate partition split to_text join at (partition item).1) ≡ true
    → merge_from locate partition split to_text join at item wdir c' ≡ raise vars_already_loaded
unfolding merge_from
merge_from-again_keys locate partition split to_text join at item wdir c c' h t =
    merge_path-again_keys locate partition split to_text join at (locate wdir (partition item).0) _
      c c' h t

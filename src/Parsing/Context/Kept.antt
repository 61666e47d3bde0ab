-- ===== src/Parsing/Context/Kept.antt =====
-- What the loading of variables (`load_from_vars` of dvc/parsing/context.py) keeps in a context.
use dvc.Base.{
  ◌≡◌, refl, sym, ap, subst, ◌∙◌, ℕ, String, Bool, true, false, Option, none, some, List, [], ◌∷◌,
  contains, string_eq, given, Result, return, Bool-cases, inl, inr, arith, ◌==◌,
}
use dvc.Parsing.Context.{
  Meta, RawFields, Node, ctx_dict, Fields, no_fields, get, ContextError, select, convert_fields,
  Context, matching, raise_reserved, merge_update,
}
use dvc.Parsing.Context.Merge.{
  IsLeaf, kept_fields, added_fields, merge_fields_untouched, AreDistinct,
}
use dvc.Parsing.Context.Distinct.{AreDistinct-convert_fields}
use dvc.Parsing.Context.Imports.{Entry, Vars, load_from_vars}
use dvc.Parsing.Context.Related.{merge_update-eq-return, load_from_vars_related}

-- A reserved key that the update has is refused.
none_reserved :
    (p : String → Bool) (ks : List String)
    → raise_reserved (matching p ks) ≡ return tt
    → (k : String) → contains ks k ≡ true
    → p k ≡ false
unfolding raise_reserved matching
none_reserved p [] h k c = cc
none_reserved p (j ∷ ks) h k c = elim (Bool-cases (p j)) [
  | inl e ↦
      (let bad : ◌≡◌ {A = Result ContextError Unit} (raise_reserved (j ∷ matching p ks))
            (return tt) =
          rw e at h in
        cc)
  | inr e ↦
      (let rest : raise_reserved (matching p ks) ≡ return tt = rw e at h in
        elim (Bool-cases (k == j)) [
          | inl same ↦ (let q : k ≡ j = ground arith in rw q e)
          | inr other ↦ none_reserved p ks rest k (ground arith)
        ])
]

merge_update-kept :
    (strip : String → String) (to_int : String → Option ℕ) (other : Fields) (ctx ctx' : Context)
    → merge_update false other ctx ≡ return ctx'
    → (meta : Meta) (parts : List String) (n : Node)
    → select strip to_int (ctx_dict ctx.fields meta) parts ≡ return n
    → IsLeaf n
    → select strip to_int (ctx_dict ctx'.fields meta) parts ≡ return n
unfolding select
merge_update-kept strip to_int other ctx ctx' h meta [] n s l =
    let e : ctx_dict ctx.fields meta ≡ n = ground arith in absurd (subst IsLeaf (sym e) l)
merge_update-kept strip to_int other ctx ctx' h meta (part ∷ parts) n s l =
    let (fs, _, m, e) = merge_update-eq-return false other ctx ctx' h in
    subst (λ c. select strip to_int (ctx_dict c.fields meta) (part ∷ parts) ≡ return n) e
      (kept_fields strip to_int other ctx.fields fs m (strip part) parts n s l)

-- Variables are not redefined: where load_from_vars returns, what was a value or a list of the context
-- under a path of keys is the same value or list afterwards.
pub load_from_vars-kept :
    (strip : String → String) (to_int : String → Option ℕ) (locate : String → String → String)
    (partition : String → String × String) (split : String → List String) (to_text : ℕ → String)
    (join : String → String → String) (at : String → Entry) (vars : List Vars) (wdir : String)
    (stage default : Option String) (ctx ctx' : Context)
    → load_from_vars locate partition split to_text join at vars wdir stage default ctx
      ≡ return ctx'
    → (meta : Meta) (parts : List String) (n : Node)
    → select strip to_int (ctx_dict ctx.fields meta) parts ≡ return n
    → IsLeaf n
    → select strip to_int (ctx_dict ctx'.fields meta) parts ≡ return n
load_from_vars-kept strip to_int locate partition split to_text join at vars wdir stage default ctx
      ctx' h =
    load_from_vars_related
      (λ c c'.
        (meta : Meta) (parts : List String) (n : Node)
        → select strip to_int (ctx_dict c.fields meta) parts ≡ return n
        → IsLeaf n
        → select strip to_int (ctx_dict c'.fields meta) parts ≡ return n)
      (λ c meta parts n s l. s)
      (λ a b c r t meta parts n s l. t meta parts n (r meta parts n s l) l)
      (λ other c c' m. merge_update-kept strip to_int other c c' m) (λ c c' i r. r) locate partition
      split to_text join at vars wdir stage default ctx ctx' h

-- The reserved keys, and what is under them, are the same after a merge.
merge_update-reserved :
    (overwrite : Bool) (other : Fields) (ctx ctx' : Context)
    → merge_update overwrite other ctx ≡ return ctx'
    → (ctx'.reserved_keys ≡ ctx.reserved_keys)
      × ((k : String) → contains ctx.reserved_keys k ≡ true → get k ctx'.fields ≡ get k ctx.fields)
merge_update-reserved overwrite other ctx ctx' h =
    let (fs, r, m, e) = merge_update-eq-return overwrite other ctx ctx' h in
    (
      sym (ap (λ c. c.reserved_keys) e),
      λ k c.
          ap (λ c. get k c.fields) (sym e)
          ∙ merge_fields_untouched overwrite other ctx.fields fs k m
              (not_given (get k other) (none_reserved _ ctx.reserved_keys r k c)),
    )
  where
    not_given : (o : Option Node) → given o ≡ false → o ≡ none
    not_given none g = refl
    not_given (some n) g = cc

-- Where load_from_vars returns, the reserved keys are the ones before, and each of them has the value
-- that it had.
pub load_from_vars-reserved :
    (locate : String → String → String) (partition : String → String × String)
    (split : String → List String) (to_text : ℕ → String) (join : String → String → String)
    (at : String → Entry) (vars : List Vars) (wdir : String) (stage default : Option String)
    (ctx ctx' : Context)
    → load_from_vars locate partition split to_text join at vars wdir stage default ctx
      ≡ return ctx'
    → (ctx'.reserved_keys ≡ ctx.reserved_keys)
      × ((k : String) → contains ctx.reserved_keys k ≡ true → get k ctx'.fields ≡ get k ctx.fields)
load_from_vars-reserved locate partition split to_text join at vars wdir stage default ctx ctx' h =
    load_from_vars_related
      (λ c c'.
        (c'.reserved_keys ≡ c.reserved_keys)
        × ((k : String) → contains c.reserved_keys k ≡ true → get k c'.fields ≡ get k c.fields))
      (λ c. (refl, λ k r. refl)) (λ a b c r t. (t.0 ∙ r.0, λ k i. t.1 k (rw r.0 i) ∙ r.1 k i))
      (λ other c c' m. merge_update-reserved false other c c' m) (λ c c' i r. r) locate partition
      split to_text join at vars wdir stage default ctx ctx' h

-- Where a merge of converted data into a context returns, with or without overwriting, what is a value or
-- a list of the data under a path of keys is that of the context afterwards.
pub merge_update-added :
    (strip : String → String) (to_int : String → Option ℕ) (overwrite : Bool) (content : RawFields)
    (source : Meta) (ctx ctx' : Context)
    → merge_update overwrite (convert_fields content source no_fields) ctx ≡ return ctx'
    → (meta : Meta) (parts : List String) (n : Node)
    → select strip to_int (ctx_dict (convert_fields content source no_fields) source) parts
      ≡ return n
    → IsLeaf n
    → select strip to_int (ctx_dict ctx'.fields meta) parts ≡ return n
unfolding select AreDistinct
merge_update-added strip to_int overwrite content source ctx ctx' h meta [] n s l =
    let e : ctx_dict (convert_fields content source no_fields) source ≡ n = ground arith in
    absurd (subst IsLeaf (sym e) l)
merge_update-added strip to_int overwrite content source ctx ctx' h meta (part ∷ parts) n s l =
    let other = convert_fields content source no_fields in
    let (fs, _, m, e) = merge_update-eq-return overwrite other ctx ctx' h in
    subst (λ c. select strip to_int (ctx_dict c.fields meta) (part ∷ parts) ≡ return n) e
      (added_fields strip to_int overwrite other ctx.fields fs m
        (AreDistinct-convert_fields content source no_fields tt) (strip part) parts n s l)

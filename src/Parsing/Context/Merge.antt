-- ===== src/Parsing/Context/Merge.antt =====
-- What a merge of dvc/parsing/context.py keeps and adds.
use dvc.Base.{
  ◌≡◌, refl, sym, ap, ◌∙◌, ℕ, String, Bool, true, false, Option, none, some, List, [], ◌∷◌, ◌==◌,
  string_eq, or_raise, Result, return, raise, then_result-eq-return, fmap, Bool-cases, inl, inr,
  arith, subst,
}
use dvc.Parsing.Context.{
  Node, value, ctx_list, ctx_dict, Fields, no_fields, entry, get, put, ContextError,
  key_not_in_context, select, merge_fields, merge_value,
}
use dvc.Parsing.Context.Laws.{get-put}

-- A value or a list: what a merge does not go into.
abbrev pub IsLeaf : Node → Type 0
IsLeaf (ctx_dict fs meta) = ⊥
IsLeaf _ = Unit

pub fmap-eq-return :
    {A B : Type 0} (r : Result ContextError A) (f : A → B) {b : B}
    → fmap f r ≡ return b
    → (a : A) × (r ≡ return a) × (f a ≡ b)
fmap-eq-return (return a) f h = (a, refl, ground arith)
fmap-eq-return (raise e) f h = cc

module _ (strip : String → String) (to_int : String → Option ℕ) where
  -- The selection from the field of a dict.
  abbrev pub select_from : Option Node → List String → Result ContextError Node
  select_from o parts = or_raise key_not_in_context o λ d. select strip to_int d parts

  mutual
    unfolding merge_fields select

    pub kept_fields :
        (update into into' : Fields)
        → merge_fields false update into ≡ return into'
        → (k : String) (parts : List String) (n : Node) → select_from (get k into) parts ≡ return n
        → IsLeaf n
        → select_from (get k into') parts ≡ return n
    kept_fields no_fields into into' h k parts n s l =
        let e : into ≡ into' = ground arith in
        subst (λ fs. select_from (get k fs) parts ≡ return n) e s
    kept_fields (entry j val update) into into' h k parts n s l =
        let (n', e, h') = then_result-eq-return (merge_value false j val (get j into)) _ h in
        kept_fields update (put j n' into) into' h' k parts n
          (elim (Bool-cases (k == j)) [
            | inl same ↦
                (let q : k ≡ j = ground arith in
                  rw (get-put j k n' into, same)
                    (kept_value val j (get j into) n' e parts n
                      (subst (λ i. select_from (get i into) parts ≡ return n) q s) l))
            | inr other ↦ rw (get-put j k n' into, other) s
          ])
          l

    kept_value :
        (val : Node) (j : String) (old : Option Node) (n' : Node)
        → merge_value false j val old ≡ return n'
        → (parts : List String) (n : Node) → select_from old parts ≡ return n
        → IsLeaf n
        → select strip to_int n' parts ≡ return n
    kept_value (ctx_dict fs meta) j (some (ctx_dict into meta')) n' h [] n s l =
        let e : ctx_dict into meta' ≡ n = ground arith in absurd (subst IsLeaf (sym e) l)
    kept_value (ctx_dict fs meta) j (some (ctx_dict into meta')) n' h (part ∷ parts) n s l =
        let (fs', r, e) =
          fmap-eq-return (merge_fields false fs into) (λ fs'. ctx_dict fs' meta') h in
        subst (λ d. select strip to_int d (part ∷ parts) ≡ return n) e
          (kept_fields fs into fs' r (strip part) parts n s l)
    kept_value (ctx_dict fs meta) j (some (value p meta')) n' h parts n s l = cc
    kept_value (ctx_dict fs meta) j (some (ctx_list ns meta')) n' h parts n s l = cc
    kept_value (value q meta) j (some old) n' h parts n s l = cc
    kept_value (ctx_list ns meta) j (some old) n' h parts n s l = cc
    kept_value (ctx_dict fs meta) j none n' h parts n s l = cc
    kept_value (ctx_list ns meta) j none n' h parts n s l = cc
    kept_value (value q meta) j none n' h parts n s l = cc

-- No key stands twice in a dict, at any depth: true of every Python dict.
unfoldable mutual
  unfolding get

  pub IsDistinct : Node → Type 0
  IsDistinct (value p meta) = Unit
  IsDistinct (ctx_list ns meta) = Unit
  IsDistinct (ctx_dict fs meta) = AreDistinct fs

  pub AreDistinct : Fields → Type 0
  AreDistinct no_fields = Unit
  AreDistinct (entry k n fs) = (get k fs ≡ none) × IsDistinct n × AreDistinct fs

pub merge_fields_untouched :
    (overwrite : Bool) (update into into' : Fields) (k : String)
    → merge_fields overwrite update into ≡ return into'
    → get k update ≡ none
    → get k into' ≡ get k into
unfolding merge_fields
merge_fields_untouched overwrite no_fields into into' k h u =
    let e : into ≡ into' = ground arith in ap (get k) (sym e)
merge_fields_untouched overwrite (entry j val update) into into' k h u =
    let (n', e, h') = then_result-eq-return (merge_value overwrite j val (get j into)) _ h in
    elim (Bool-cases (k == j)) [
      | inl same ↦ (let u' : some val ≡ none = rw same at u in cc)
      | inr other ↦
          (let u' : get k update ≡ none = rw other at u in
            merge_fields_untouched overwrite update (put j n' into) into' k h' u'
            ∙ (get-put j k n' into ∙ rw other refl))
    ]

module _ (strip : String → String) (to_int : String → Option ℕ) where
  moved :
      (val n' : Node)
      → ◌≡◌ {A = Result ContextError Node} (return val) (return n')
      → (parts : List String) {n : Node} → select strip to_int val parts ≡ return n
      → select strip to_int n' parts ≡ return n
  moved val n' h parts s = let e : val ≡ n' = ground arith in rw (← e) s

  mutual
    unfolding merge_fields select IsDistinct

    pub added_fields :
        (overwrite : Bool) (update into into' : Fields)
        → merge_fields overwrite update into ≡ return into'
        → AreDistinct update
        → (k : String) (parts : List String) (n : Node)
        → select_from strip to_int (get k update) parts ≡ return n
        → IsLeaf n
        → select_from strip to_int (get k into') parts ≡ return n
    added_fields overwrite no_fields into into' h d k parts n s l = cc
    added_fields overwrite (entry j val update) into into' h d k parts n s l =
        let (n', e, h') = then_result-eq-return (merge_value overwrite j val (get j into)) _ h in
        elim (Bool-cases (k == j)) [
          | inl same ↦
              (let q : k ≡ j = ground arith in
                let there : get k into' ≡ some n' =
                  merge_fields_untouched overwrite update (put j n' into) into' k h'
                    (subst (λ i. get i update ≡ none) (sym q) d.0)
                  ∙ (get-put j k n' into ∙ rw same refl) in
                rw there
                  (added_value overwrite val j (get j into) n' e d.1 parts n (rw same at s) l))
          | inr other ↦
              added_fields overwrite update (put j n' into) into' h' d.2 k parts n (rw other at s) l
        ]

    added_value :
        (overwrite : Bool) (val : Node) (j : String) (old : Option Node) (n' : Node)
        → merge_value overwrite j val old ≡ return n'
        → IsDistinct val
        → (parts : List String) (n : Node) → select strip to_int val parts ≡ return n
        → IsLeaf n
        → select strip to_int n' parts ≡ return n
    added_value overwrite (ctx_dict fs meta) j (some (ctx_dict into meta')) n' h d [] n s l =
        let e : ctx_dict fs meta ≡ n = ground arith in absurd (subst IsLeaf (sym e) l)
    added_value overwrite (ctx_dict fs meta) j (some (ctx_dict into meta')) n' h d (part ∷ parts) n
          s l =
        let (fs', r, e) =
          fmap-eq-return (merge_fields overwrite fs into) (λ fs'. ctx_dict fs' meta') h in
        subst (λ m. select strip to_int m (part ∷ parts) ≡ return n) e
          (added_fields overwrite fs into fs' r d (strip part) parts n s l)
    added_value true (ctx_dict fs meta) j (some (value p meta')) n' h d parts n s l =
        moved _ _ h parts s
    added_value true (ctx_dict fs meta) j (some (ctx_list ns meta')) n' h d parts n s l =
        moved _ _ h parts s
    added_value true (ctx_list ns meta) j (some old) n' h d parts n s l = moved _ _ h parts s
    added_value true (value q meta) j (some old) n' h d parts n s l = moved _ _ h parts s
    added_value false (ctx_dict fs meta) j (some (value p meta')) n' h d parts n s l = cc
    added_value false (ctx_dict fs meta) j (some (ctx_list ns meta')) n' h d parts n s l = cc
    added_value false (ctx_list ns meta) j (some old) n' h d parts n s l = cc
    added_value false (value q meta) j (some old) n' h d parts n s l = cc
    added_value overwrite (ctx_dict fs meta) j none n' h d parts n s l = moved _ _ h parts s
    added_value overwrite (ctx_list ns meta) j none n' h d parts n s l = moved _ _ h parts s
    added_value overwrite (value q meta) j none n' h d parts n s l = moved _ _ h parts s

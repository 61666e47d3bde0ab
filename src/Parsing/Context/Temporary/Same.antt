-- ===== src/Parsing/Context/Temporary/Same.antt =====
-- A temporary setting (dvc/parsing/context.py) whose body only reads leaves the context as it was.
use dvc.Base.{
  ◌≡◌, refl, sym, ap, subst, ◌∙◌, String, Bool, true, false, none, List, [], ◌∷◌, ◌++◌, ◌==◌,
  string_eq, contains, contains-append, Distinct, All, given, not, Bool-cases, Option-cases, inl,
  inr, arith, if◌then◌else◌,
}
use mathlib.Core.List.{append-nil, append_assoc}
use dvc.Parsing.Context.{Node, Fields, no_fields, entry, get, put, pop, Context, matching}
use dvc.Parsing.Context.Temporary.{
  update_fields, field_keys, previous, entry_if, pop_all, finished, reserved, from_keys, entered,
  restore, set_temporarily,
}
use dvc.Parsing.Context.Temporary.Restored.{
  Distinct-update_fields, get-update_fields, get-restore, absent_new, get-field_keys,
  release-append, contains-matching,
}

get-absent : (k : String) (fs : Fields) → contains (field_keys fs) k ≡ false → get k fs ≡ none
unfolding field_keys get
get-absent k no_fields h = refl
get-absent k (entry j n fs) h = ground (arith, get-absent k fs)

-- Dicts with the same keys in one order, and the same values, are the same.
fields_ext :
    (fs gs : Fields)
    → field_keys fs ≡ field_keys gs
    → Distinct (field_keys fs)
    → ((k : String) → get k fs ≡ get k gs)
    → fs ≡ gs
unfolding field_keys get
fields_ext no_fields no_fields e d h = refl
fields_ext no_fields (entry k n gs) e d h = cc
fields_ext (entry k n fs) no_fields e d h = cc
fields_ext (entry k n fs) (entry j m gs) e d h =
    let q : k ≡ j = ground arith in
    let tails : field_keys fs ≡ field_keys gs = ground arith in
    let values : n ≡ m = ground (arith, h k) in
    let rest = fields_ext fs gs tails d.1 λ x. elim (Bool-cases (x == k)) [
      | inl e1 ↦
          (let p : x ≡ k = ground arith in
            rw p (get-absent k fs d.0 ∙ sym (get-absent k gs (rw (← tails) d.0))))
      | inr e1 ↦ (let there = h x in ground (arith, there))
    ] in
    rw (q, values, rest) refl

matching_agree :
    (p q : String → Bool) (ks : List String)
    → All (λ k. p k ≡ q k) ks
    → matching p ks ≡ matching q ks
unfolding matching
matching_agree p q [] h = refl
matching_agree p q (k ∷ ks) h = rw (h.0, matching_agree p q ks h.1) refl

put-field_keys :
    (k : String) (n : Node) (fs : Fields)
    → field_keys (put k n fs)
      ≡ (if contains (field_keys fs) k then field_keys fs else field_keys fs ++ k ∷ [])
unfolding field_keys put
put-field_keys k n no_fields = refl
put-field_keys k n (entry j m fs) = ground (arith, put-field_keys k n fs)

cut : String → List String → List String
cut k [] = []
cut k (j ∷ ks) = if k == j then ks else j ∷ cut k ks

cut-append :
    (k : String) (ks new : List String) → contains ks k ≡ false → cut k (ks ++ k ∷ new) ≡ ks ++ new
unfolding cut
cut-append k [] new h = ground arith
cut-append k (j ∷ ks) new h = ground (arith, cut-append k ks new)

cut-field_keys : (k : String) (fs : Fields) → field_keys (pop k fs) ≡ cut k (field_keys fs)
unfolding field_keys pop cut
cut-field_keys k no_fields = refl
cut-field_keys k (entry j m fs) = ground (arith, cut-field_keys k fs)

pop_all-append :
    (new ks : List String) (fs : Fields)
    → All (λ k. contains ks k ≡ false) new
    → field_keys fs ≡ ks ++ new
    → field_keys (pop_all new fs) ≡ ks
unfolding pop_all
pop_all-append [] ks fs h e = e ∙ append-nil ks
pop_all-append (k ∷ new) ks fs h e =
    pop_all-append new ks (pop k fs) h.1
      (cut-field_keys k fs ∙ (ap (cut k) e ∙ cut-append k ks new h.0))

-- What `update` does to the keys: new ones come last, in their order.
update_fields-field_keys :
    (temp fs : Fields)
    → Distinct (field_keys temp)
    → field_keys (update_fields temp fs)
      ≡ field_keys fs ++ matching (λ k. not (contains (field_keys fs) k)) (field_keys temp)
unfolding update_fields field_keys matching
update_fields-field_keys no_fields fs d = sym (append-nil (field_keys fs))
update_fields-field_keys (entry k n temp) fs d =
    let ih = update_fields-field_keys temp (put k n fs) d.1 in
    elim (Bool-cases (contains (field_keys fs) k)) [
      | inl e ↦
          (let same : field_keys (put k n fs) ≡ field_keys fs = put-field_keys k n fs ∙ rw e refl in
            ih ∙ rw (same, e) refl)
      | inr e ↦
          (let more : field_keys (put k n fs) ≡ field_keys fs ++ k ∷ [] =
              put-field_keys k n fs ∙ rw e refl in
            let agree =
              matching_agree (λ j. not (contains (field_keys fs ++ k ∷ []) j))
                (λ j. not (contains (field_keys fs) j)) (field_keys temp)
                (others (field_keys temp) d.0) in
            ih ∙ rw (more, agree, e) (append_assoc (field_keys fs) (k ∷ []) _))
    ]
  where
    others :
        (ks : List String)
        → contains ks k ≡ false
        → All
            (λ j. not (contains (field_keys fs ++ k ∷ []) j) ≡ not (contains (field_keys fs) j))
            ks
    others [] h = tt
    others (j ∷ ks) h =
        (ground (arith, contains-append (field_keys fs) (k ∷ []) j), others ks (ground arith))

put_known :
    (temp into : Fields)
    → All (λ k. contains (field_keys into) k ≡ true) (field_keys temp)
    → field_keys (update_fields temp into) ≡ field_keys into
unfolding update_fields field_keys
put_known no_fields into h = refl
put_known (entry k n temp) into h =
    let same : field_keys (put k n into) ≡ field_keys into =
      put-field_keys k n into ∙ rw (h.0) refl in
    put_known temp (put k n into)
      (subst (λ ks. All (λ j. contains ks j ≡ true) (field_keys temp)) (sym same) h.1)
    ∙ same

previous_known :
    (ks : List String) (fs : Fields) (more : List String)
    → All (λ k. contains (field_keys fs ++ more) k ≡ true) (field_keys (previous ks fs))
unfolding previous entry_if field_keys
previous_known [] fs more = tt
previous_known (k ∷ ks) fs more = elim (Option-cases (get k fs)) [
  | inl e ↦ rw e (previous_known ks fs more)
  | inr (n, e) ↦ rw e (
    ground (arith, contains-append (field_keys fs) more k, sym (get-field_keys k fs) ∙ ap given e),
    previous_known ks fs more,
  )
]

known_agree :
    (ks : List String) (fs : Fields)
    → All (λ k. not (given (get k fs)) ≡ not (contains (field_keys fs) k)) ks
known_agree [] fs = tt
known_agree (k ∷ ks) fs = (ap not (get-field_keys k fs), known_agree ks fs)

-- A temporary setting with a body that only reads leaves the fields as they were, in their order.
pub restore-update_fields :
    (temp : Fields) (ctx : Context)
    → Distinct (field_keys temp)
    → Distinct (field_keys ctx.fields)
    → (restore (field_keys temp) ctx (record ctx { fields = update_fields temp ctx.fields })).fields
      ≡ ctx.fields
unfolding restore
restore-update_fields temp ctx dt d =
    let ks = field_keys temp in
    let fs = ctx.fields in
    let set = update_fields temp fs in
    let ctx' = record ctx { fields = set } in
    let new = matching (λ k. not (contains (field_keys fs) k)) ks in
    let back = update_fields (previous ks fs) set in
    let set_keys = update_fields-field_keys temp fs dt in
    let back_keys : field_keys back ≡ field_keys fs ++ new =
      put_known (previous ks fs) set (
        subst (λ l. All (λ k. contains l k ≡ true) (field_keys (previous ks fs))) (sym set_keys)
          (previous_known ks fs new))
      ∙ set_keys in
    let gone =
      matching_agree (λ k. not (given (get k fs))) (λ k. not (contains (field_keys fs) k)) ks
        (known_agree ks fs) in
    let keys : field_keys (restore ks ctx ctx').fields ≡ field_keys fs =
      rw gone (pop_all-append new (field_keys fs) back (absent_new (field_keys fs) ks) back_keys) in
    fields_ext (restore ks ctx ctx').fields fs keys (rw keys d) λ k.
      get-restore ks ctx ctx' (Distinct-update_fields temp fs d) k
      ∙ looked_up k (contains ks k) refl
  where
    looked_up :
        (k : String) (b : Bool)
        → contains (field_keys temp) k ≡ b
        → (if b then get k ctx.fields else get k (update_fields temp ctx.fields)) ≡ get k ctx.fields
    looked_up k true e = refl
    looked_up k false e = get-update_fields k temp ctx.fields e

Distinct-matching : (p : String → Bool) (ks : List String) → Distinct ks → Distinct (matching p ks)
unfolding matching
Distinct-matching p [] d = tt
Distinct-matching p (k ∷ ks) d = elim (Bool-cases (p k)) [
  | inl e ↦ rw e (ground (arith, contains-matching p ks k, d.0), Distinct-matching p ks d.1)
  | inr e ↦ rw e (Distinct-matching p ks d.1)
]

matching-absent :
    (k : String) (ks : List String) → contains ks k ≡ false → matching (λ j. not (j == k)) ks ≡ ks
unfolding matching
matching-absent k [] h = refl
matching-absent k (j ∷ ks) h = ground (arith, matching-absent k ks)

-- Keys that are all different are kept.
from_keys-Distinct : (ks : List String) → Distinct ks → from_keys ks ≡ ks
unfolding from_keys
from_keys-Distinct [] d = refl
from_keys-Distinct (k ∷ ks) d = rw (from_keys-Distinct ks d.1, matching-absent k ks d.0) refl

-- So the whole call answers what the body reads, and the context is the one before.
pub set_temporarily-reader :
    {A : Type 0} (temp : Fields) (f : Context → A) (ctx : Context)
    → Distinct (field_keys temp)
    → Distinct (field_keys ctx.fields)
    → set_temporarily temp true (λ c. (f c, c)) ctx ≡ (
      finished (
          f (record ctx {
            fields = update_fields temp ctx.fields;
            reserved_keys =
                ctx.reserved_keys
                ++ matching (λ k. not (contains ctx.reserved_keys k)) (field_keys temp);
          })),
      ctx,
    )
unfolding set_temporarily entered reserved restore
set_temporarily-reader temp f ctx dt d =
    let ks = field_keys temp in
    let once =
      from_keys-Distinct (matching (λ k. not (contains ctx.reserved_keys k)) ks)
        (Distinct-matching (λ k. not (contains ctx.reserved_keys k)) ks dt) in
    let done =
      release-append (matching (λ k. not (contains ctx.reserved_keys k)) ks) ctx.reserved_keys
        (absent_new ctx.reserved_keys ks) in
    rw (once, done, restore-update_fields temp ctx dt d) refl

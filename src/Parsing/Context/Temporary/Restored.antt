-- ===== src/Parsing/Context/Temporary/Restored.antt =====
-- What a temporary setting of dvc/parsing/context.py leaves behind.
use dvc.Base.{
  ◌≡◌, refl, sym, ◌∙◌, String, Bool, true, false, Option, none, some, List, [], ◌∷◌, ◌++◌, ◌==◌,
  ◌||◌, ◌&&◌, string_eq, contains, Distinct, All, given, not, Bool-cases, Option-cases, inl, inr,
  arith, if◌then◌else◌,
}
use mathlib.Core.List.{append-nil}
use dvc.Parsing.Context.{Node, Fields, no_fields, entry, get, put, pop, Context, matching}
use dvc.Parsing.Context.Laws.{get-put, get-pop}
use dvc.Parsing.Context.Temporary.{
  update_fields, field_keys, previous, entry_if, pop_all, pop_reserved, release, finished, reserved,
  from_keys, entered, restore, set_temporarily,
}

pub field_keys-put :
    (k j : String) (n : Node) (fs : Fields)
    → contains (field_keys (put k n fs)) j ≡ (j == k || contains (field_keys fs) j)
unfolding field_keys put
field_keys-put k j n no_fields = refl
field_keys-put k j n (entry i m fs) = ground (arith, field_keys-put k j n fs)

pub Distinct-put :
    (k : String) (n : Node) (fs : Fields)
    → Distinct (field_keys fs)
    → Distinct (field_keys (put k n fs))
unfolding field_keys put
Distinct-put k n no_fields d = (refl, tt)
Distinct-put k n (entry i m fs) d = elim (Bool-cases (k == i)) [
  | inl e ↦ rw e d
  | inr e ↦ rw e (ground (arith, field_keys-put k i n fs), Distinct-put k n fs d.1)
]

pub Distinct-update_fields :
    (fs into : Fields) → Distinct (field_keys into) → Distinct (field_keys (update_fields fs into))
unfolding update_fields
Distinct-update_fields no_fields into d = d
Distinct-update_fields (entry k n fs) into d =
    Distinct-update_fields fs (put k n into) (Distinct-put k n into d)

pub get-field_keys : (k : String) (fs : Fields) → given (get k fs) ≡ contains (field_keys fs) k
unfolding get field_keys
get-field_keys k no_fields = refl
get-field_keys k (entry j n fs) = ground (arith, get-field_keys k fs)

field_keys-pop :
    (k j : String) (fs : Fields)
    → contains (field_keys fs) j ≡ false
    → contains (field_keys (pop k fs)) j ≡ false
unfolding field_keys pop
field_keys-pop k j no_fields h = refl
field_keys-pop k j (entry i m fs) h = ground (arith, field_keys-pop k j fs)

Distinct-pop :
    (k : String) (fs : Fields) → Distinct (field_keys fs) → Distinct (field_keys (pop k fs))
unfolding field_keys pop
Distinct-pop k no_fields d = tt
Distinct-pop k (entry i m fs) d = elim (Bool-cases (k == i)) [
  | inl e ↦ rw e d.1
  | inr e ↦ rw e (field_keys-pop k i fs d.0, Distinct-pop k fs d.1)
]

popped :
    (k : String) (fs : Fields)
    → Distinct (field_keys fs)
    → contains (field_keys (pop k fs)) k ≡ false
unfolding field_keys pop
popped k no_fields d = refl
popped k (entry i m fs) d = ground (arith, popped k fs d.1, d.0)

field_keys-pop_all :
    (k : String) (ks : List String) (fs : Fields)
    → contains (field_keys fs) k ≡ false
    → contains (field_keys (pop_all ks fs)) k ≡ false
unfolding pop_all
field_keys-pop_all k [] fs h = h
field_keys-pop_all k (j ∷ ks) fs h = field_keys-pop_all k ks (pop j fs) (field_keys-pop j k fs h)

all_popped :
    (k : String) (ks : List String) (fs : Fields)
    → Distinct (field_keys fs)
    → contains ks k ≡ true
    → contains (field_keys (pop_all ks fs)) k ≡ false
unfolding pop_all
all_popped k [] fs d h = cc
all_popped k (j ∷ ks) fs d h = elim (Bool-cases (k == j)) [
  | inl e ↦
      (let q : k ≡ j = ground arith in field_keys-pop_all k ks (pop j fs) (rw q (popped j fs d)))
  | inr e ↦ all_popped k ks (pop j fs) (Distinct-pop j fs d) (ground arith)
]

get-pop_all :
    (k : String) (ks : List String) (fs : Fields)
    → contains ks k ≡ false
    → get k (pop_all ks fs) ≡ get k fs
unfolding pop_all
get-pop_all k [] fs h = refl
get-pop_all k (j ∷ ks) fs h =
    get-pop_all k ks (pop j fs) (ground arith) ∙ get-pop j k fs (ground arith)

-- What `update` leaves under a key that it does not have.
pub get-update_fields :
    (k : String) (fs into : Fields)
    → contains (field_keys fs) k ≡ false
    → get k (update_fields fs into) ≡ get k into
unfolding update_fields field_keys
get-update_fields k no_fields into h = refl
get-update_fields k (entry j n fs) into h =
    get-update_fields k fs (put j n into) (ground arith) ∙ ground (arith, get-put j k n into)

pub field_keys-previous :
    (k : String) (ks : List String) (fs : Fields)
    → contains ks k ≡ false
    → contains (field_keys (previous ks fs)) k ≡ false
unfolding previous entry_if field_keys
field_keys-previous k [] fs h = refl
field_keys-previous k (j ∷ ks) fs h = elim (Option-cases (get j fs)) [
  | inl e ↦ rw e (field_keys-previous k ks fs (ground arith))
  | inr (n, e) ↦ rw e (ground (arith, field_keys-previous k ks fs))
]

pub contains-matching :
    (p : String → Bool) (ks : List String) (k : String)
    → contains (matching p ks) k ≡ (contains ks k && p k)
unfolding matching
contains-matching p [] k = refl
contains-matching p (j ∷ ks) k = elim (Bool-cases (k == j)) [
  | inl e ↦ (let q : k ≡ j = ground arith in rw q (ground (arith, contains-matching p ks j)))
  | inr e ↦ ground (arith, contains-matching p ks k)
]

-- `update(prev)` gives a key back what it had.
get-update_previous :
    (k : String) (ks : List String) (fs into : Fields) (n : Node)
    → contains ks k ≡ true
    → get k fs ≡ some n
    → get k (update_fields (previous ks fs) into) ≡ some n
unfolding previous entry_if update_fields
get-update_previous k [] fs into n h g = cc
get-update_previous k (j ∷ ks) fs into n h g = elim (Option-cases (get j fs)) [
  | inl e ↦ elim (Bool-cases (k == j)) [
    | inl same ↦ (let q : k ≡ j = ground arith in let bad : some n ≡ none = sym g ∙ (rw q e) in cc)
    | inr other ↦ rw e (get-update_previous k ks fs into n (ground arith) g)
  ]
  | inr (m, e) ↦ elim (Bool-cases (contains ks k)) [
    | inl later ↦ rw e (get-update_previous k ks fs (put j m into) n later g)
    | inr last ↦
        (let q : k ≡ j = ground arith in
          let same : some m ≡ some n = sym e ∙ (rw (← q) g) in
          rw e (
            get-update_fields k (previous ks fs) (put j m into) (field_keys-previous k ks fs last)
            ∙ (get-put j k m into ∙ ground arith)))
  ]
]

pub get-restore :
    (ks : List String) (ctx ctx' : Context)
    → Distinct (field_keys ctx'.fields)
    → (k : String)
    → get k (restore ks ctx ctx').fields
      ≡ (if contains ks k then get k ctx.fields else get k ctx'.fields)
unfolding restore
get-restore ks ctx ctx' d k =
    let gone = matching (λ k'. not (given (get k' ctx.fields))) ks in
    let back = update_fields (previous ks ctx.fields) ctx'.fields in
    let in_gone = contains-matching (λ k'. not (given (get k' ctx.fields))) ks k in
    elim (Bool-cases (contains ks k)) [
      | inr e ↦ rw e (
          get-pop_all k gone back (ground arith)
          ∙ get-update_fields k (previous ks ctx.fields) ctx'.fields
              (field_keys-previous k ks ctx.fields e))
      | inl e ↦ elim (Option-cases (get k ctx.fields)) [
        | inl none_there ↦
            (let out =
                all_popped k gone back
                  (Distinct-update_fields (previous ks ctx.fields) ctx'.fields d)
                  (in_gone ∙ rw (e, none_there) refl) in
              rw (e, none_there)
                (not_given (get k (pop_all gone back))
                  (get-field_keys k (pop_all gone back) ∙ out)))
        | inr (n, there) ↦
            rw (e, there)
              (get-pop_all k gone back (in_gone ∙ rw (e, there) refl)
                ∙ get-update_previous k ks ctx.fields ctx'.fields n e there)
      ]
    ]
  where
    not_given : (o : Option Node) → given o ≡ false → o ≡ none
    not_given none g = refl
    not_given (some n) g = cc

pop_reserved-append :
    (k : String) (ks new : List String)
    → contains ks k ≡ false
    → pop_reserved k (ks ++ k ∷ new) ≡ some (ks ++ new)
unfolding pop_reserved
pop_reserved-append k [] new h = ground arith
pop_reserved-append k (j ∷ ks) new h = ground (arith, pop_reserved-append k ks new)

-- Keys that were appended are released.
pub release-append :
    (new ks : List String)
    → All (λ k. contains ks k ≡ false) new
    → release new (ks ++ new) ≡ (true, ks)
unfolding release
release-append [] ks h = rw (append-nil ks) refl
release-append (k ∷ new) ks h =
    rw (release, pop_reserved-append k ks new h.0) (release-append new ks h.1)

pub absent_new :
    (ks keys : List String)
    → All (λ k. contains ks k ≡ false) (matching (λ k. not (contains ks k)) keys)
unfolding matching
absent_new ks [] = tt
absent_new ks (k ∷ keys) = elim (Bool-cases (contains ks k)) [
  | inl e ↦ rw e (absent_new ks keys)
  | inr e ↦ rw e (e, absent_new ks keys)
]

All-matching :
    (P : String → Type 0) (p : String → Bool) (ks : List String) → All P ks → All P (matching p ks)
unfolding matching
All-matching P p [] h = tt
All-matching P p (k ∷ ks) h = elim (Bool-cases (p k)) [
  | inl e ↦ rw e (h.0, All-matching P p ks h.1)
  | inr e ↦ rw e (All-matching P p ks h.1)
]

pub All-from_keys : (P : String → Type 0) (ks : List String) → All P ks → All P (from_keys ks)
unfolding from_keys
All-from_keys P [] h = tt
All-from_keys P (k ∷ ks) h =
    (h.0, All-matching P (λ j. not (j == k)) (from_keys ks) (All-from_keys P ks h.1))

Distinct-entered :
    {A : Type 0} (reserve : Bool) (keys : List String) (body : Context → A × Context)
    (ctx : Context)
    → ((c : Context) → Distinct (field_keys c.fields) → Distinct (field_keys (body c).1.fields))
    → Distinct (field_keys ctx.fields)
    → Distinct (field_keys (entered reserve keys body ctx).1.fields)
unfolding entered reserved
Distinct-entered true keys body ctx keep d = keep _ d
Distinct-entered false keys body ctx keep d = keep _ d

-- The temporary settings end with the `with`: afterwards each key that was set is as it was before, also
-- where it did not exist, and every other key is as the body left it. The dicts before and after the
-- body have each key once.
pub get-set_temporarily :
    {A : Type 0} (temp : Fields) (reserve : Bool) (body : Context → A × Context) (ctx : Context)
    → ((c : Context) → Distinct (field_keys c.fields) → Distinct (field_keys (body c).1.fields))
    → Distinct (field_keys ctx.fields)
    → (k : String)
    → get k (set_temporarily temp reserve body ctx).1.fields ≡ (
        if contains (field_keys temp) k
        then get k ctx.fields
        else get k
            (entered reserve
              (field_keys temp)
              body
              (record ctx { fields = update_fields temp ctx.fields })).1.fields)
unfolding set_temporarily
get-set_temporarily temp reserve body ctx keep d k =
    let set = record ctx { fields = update_fields temp ctx.fields } in
    get-restore (field_keys temp) ctx (entered reserve (field_keys temp) body set).1
      (Distinct-entered reserve (field_keys temp) body set keep
        (Distinct-update_fields temp ctx.fields d))
      k

-- A reservation ends with the `with`: where the body leaves the reserved keys as it finds them, the exit
-- raises no KeyError, the body's answer is answered, and the reserved keys are those before.
pub reserved-released :
    {A : Type 0} (keys : List String) (body : Context → A × Context) (ctx : Context)
    → ((c : Context) → (body c).1.reserved_keys ≡ c.reserved_keys)
    → ((reserved keys body ctx).0
        ≡ finished
            (body (record ctx {
              reserved_keys =
                  ctx.reserved_keys
                  ++ from_keys (matching (λ k. not (contains ctx.reserved_keys k)) keys);
            })).0)
      × ((reserved keys body ctx).1.reserved_keys ≡ ctx.reserved_keys)
unfolding reserved
reserved-released keys body ctx keep =
    let new = from_keys (matching (λ k. not (contains ctx.reserved_keys k)) keys) in
    let inside = record ctx { reserved_keys = ctx.reserved_keys ++ new } in
    let done : release new (body inside).1.reserved_keys ≡ (true, ctx.reserved_keys) =
      rw (keep inside) (
        release-append new ctx.reserved_keys (
          All-from_keys (λ k. contains ctx.reserved_keys k ≡ false) _
            (absent_new ctx.reserved_keys keys))) in
    (rw done refl, rw done refl)

-- ===== src/Parsing/Groups/Resolved.antt =====
-- The stages of a group (dvc/parsing/__init__.py) do not see each other's settings.
use dvc.Base.{
  ◌≡◌, refl, ap, ◌∙◌, String, Option, none, some, List, [], ◌∷◌, string_eq, Distinct, Result,
  return, raise, fmap, then_result, traverse, Exec, pure, and_then, ◌>>=◌,
}
use dvc.Base.Dict
use dvc.Base.Dict.{Dict}
use dvc.Parsing.Context.{Fields, Node, ctx_dict, ctx_list, value, Context}
use dvc.Parsing.Context.Temporary.{field_keys}
use dvc.Parsing.Context.Temporary.Same.{set_temporarily-reader}
use dvc.Parsing.Groups.{
  foreach_temp, matrix_temp, generate_name, resolve_entry, resolve_one, resolve_each, resolve_all,
}

then_result-fmap :
    {E A B : Type 0} (r : Result E A) (f : A → B) → then_result r (λ a. return (f a)) ≡ fmap f r
then_result-fmap (return a) f = refl
then_result-fmap (raise e) f = refl

-- Steps that leave a state as it is.
bind-alone :
    {E S A B : Type 0} (m : Exec E S A) (g : A → Exec E S B) (h : A → Result E B) (s : S)
    → (m s).1 ≡ s
    → ((a : A) → g a s ≡ (h a, s))
    → (m >>= g) s ≡ (then_result (m s).0 h, s)
bind-alone {E} {S} {A} m g h s same k = go (m s).0 (m s).1 same
  where
    go : (r : Result E A) (s' : S) → s' ≡ s → and_then r g s' ≡ (then_result r h, s)
    go (return a) s' q = rw q (k a)
    go (raise e) s' q = rw q refl

module _ {X V E : Type 0} (temp_dict : String → X → Fields)
    (distinct : (k : String) (x : X) → Distinct (field_keys (temp_dict k x))) (name : String)
    (resolve_stage : Context → String → Result E V) (ctx : Context)
    (unique : Distinct (field_keys ctx.fields)) where
  resolve_entry-context :
      (k : String) (o : Option X) → (resolve_entry temp_dict name resolve_stage k o ctx).1 ≡ ctx
  unfolding resolve_entry
  resolve_entry-context k none = refl
  resolve_entry-context k (some x) =
      ap (λ r. r.1)
        (set_temporarily-reader (temp_dict k x) (λ c. resolve_stage c (generate_name name k)) ctx
          (distinct k x) unique)

  resolve_each-alone :
      (normalized : Dict X) (ks : List String)
      → resolve_each temp_dict name resolve_stage normalized ks ctx
        ≡ (traverse (λ k. (resolve_one temp_dict name resolve_stage normalized k ctx).0) ks, ctx)
  unfolding resolve_each resolve_one
  resolve_each-alone normalized [] = refl
  resolve_each-alone normalized (k ∷ ks) =
      let rest = resolve_each temp_dict name resolve_stage normalized ks in
      let alone =
        traverse (λ j. (resolve_one temp_dict name resolve_stage normalized j ctx).0) ks in
      let ih = resolve_each-alone normalized ks in
      bind-alone (resolve_one temp_dict name resolve_stage normalized k)
        (λ r. rest >>= λ rs. pure (r ∷ rs)) (λ r. fmap (λ rs. r ∷ rs) alone) ctx
        (resolve_entry-context k (Dict.lookup k normalized))
        λ r.
          bind-alone rest (λ rs. pure (r ∷ rs)) (λ rs. return (r ∷ rs)) ctx (ap (λ p. p.1) ih)
            (λ rs. refl)
          ∙ ap (λ t. (t, ctx))
              (ap (λ t. then_result t (λ rs. return (r ∷ rs))) (ap (λ p. p.0) ih)
                ∙ then_result-fmap alone (λ rs. r ∷ rs))

  resolve_all-alone :
      {J : Type 0} (join : List (String × V) → J) (normalized : Dict X)
      → resolve_all temp_dict name resolve_stage join normalized ctx ≡ (
        fmap join (
            traverse
              (λ k. (resolve_one temp_dict name resolve_stage normalized k ctx).0)
              (Dict.keys normalized)),
        ctx,
      )
  unfolding resolve_all
  resolve_all-alone join normalized =
      let ih = resolve_each-alone normalized (Dict.keys normalized) in
      bind-alone (resolve_each temp_dict name resolve_stage normalized (Dict.keys normalized))
        (λ rs. pure (join rs)) (λ rs. return (join rs)) ctx (ap (λ p. p.1) ih) (λ rs. refl)
      ∙ ap (λ t. (t, ctx))
          (ap (λ t. then_result t (λ rs. return (join rs))) (ap (λ p. p.0) ih)
            ∙ then_result-fmap _ join)

foreach_temp-Distinct :
    (iterable : Node) (k : String) (n : Node) → Distinct (field_keys (foreach_temp iterable k n))
unfolding foreach_temp field_keys string_eq
foreach_temp-Distinct (value p meta) k n = (refl, tt)
foreach_temp-Distinct (ctx_list ns meta) k n = (refl, tt)
foreach_temp-Distinct (ctx_dict fs meta) k n = (refl, (refl, tt))

matrix_temp-Distinct : (k : String) (d : Fields) → Distinct (field_keys (matrix_temp k d))
unfolding matrix_temp field_keys string_eq
matrix_temp-Distinct k d = (refl, (refl, tt))

-- resolve_all of a foreach group answers what resolve_one answers for each key in the context before, or
-- raises its first error, and leaves the context as it was, its dict having each key once: `item` and
-- `key` of one stage are seen by no other.
pub resolve_all-foreach :
    {V E J : Type 0} (iterable : Node) (name : String)
    (resolve_stage : Context → String → Result E V) (join : List (String × V) → J)
    (normalized : Dict Node) (ctx : Context)
    → Distinct (field_keys ctx.fields)
    → resolve_all (foreach_temp iterable) name resolve_stage join normalized ctx ≡ (
      fmap join (
          traverse
            (λ k. (resolve_one (foreach_temp iterable) name resolve_stage normalized k ctx).0)
            (Dict.keys normalized)),
      ctx,
    )
resolve_all-foreach iterable name resolve_stage join normalized ctx unique =
    resolve_all-alone (foreach_temp iterable) (foreach_temp-Distinct iterable) name resolve_stage
      ctx unique join normalized

-- So does resolve_all of a matrix group.
pub resolve_all-matrix :
    {V E J : Type 0} (name : String) (resolve_stage : Context → String → Result E V)
    (join : List (String × V) → J) (normalized : Dict Fields) (ctx : Context)
    → Distinct (field_keys ctx.fields)
    → resolve_all matrix_temp name resolve_stage join normalized ctx ≡ (
      fmap join (
          traverse
            (λ k. (resolve_one matrix_temp name resolve_stage normalized k ctx).0)
            (Dict.keys normalized)),
      ctx,
    )
resolve_all-matrix name resolve_stage join normalized ctx unique =
    resolve_all-alone matrix_temp matrix_temp-Distinct name resolve_stage ctx unique join normalized

-- ===== src/Base/Outcome.antt =====
-- Functions that return or raise, and methods that also change a state. What was written before a
-- raise stays written, so the state comes back beside the exception too.
use mathlib.Core.Path.{◌≡◌, refl, ap₂, subst}
use mathlib.Core.Option.{Option, none, some}
use mathlib.Core.List.{List, [], ◌∷◌, map}
use dvc.Base.Lists.{All}

pub data Result (E A : Type 0) : Type 0 where
  return : A → Result E A
  raise : E → Result E A

abbrev pub Exec : Type 0 → Type 0 → Type 0 → Type 0
Exec E S A = S → Result E A × S

module _ {E S A : Type 0} where
  abbrev pub pure : A → Exec E S A
  pure a s = (return a, s)

  abbrev pub throw : E → Exec E S A
  throw e s = (raise e, s)

  abbrev pub lift : Result E A → Exec E S A
  lift r s = (r, s)

  abbrev pub gets : (S → A) → Exec E S A
  gets f s = (return (f s), s)

module _ {E S A B : Type 0} where
  abbrev pub and_then : Result E A → (A → Exec E S B) → Exec E S B
  and_then (return a) f = f a
  and_then (raise e) f = throw e

  infixl 5 ◌>>=◌ ◌>>◌
  abbrev pub ◌>>=◌ : Exec E S A → (A → Exec E S B) → Exec E S B
  m >>= f = λ s. let (r, s') = m s in and_then r f s'

  abbrev pub ◌>>◌ : Exec E S A → Exec E S B → Exec E S B
  m >> n = m >>= λ _. n

-- `m` keeps `P`, whether it returns or raises.
abbrev pub Keeps : {E S A : Type 0} → (S → Type 0) → Exec E S A → Type 0
Keeps {S} P m = (s : S) → P s → P (m s).1

module _ {E S : Type 0} {P : S → Type 0} where
  pub Keeps-and_then :
      {A B : Type 0} (r : Result E A) (f : A → Exec E S B)
      → ((a : A) → Keeps P (f a))
      → Keeps P (and_then r f)
  Keeps-and_then (return a) f kf = kf a
  Keeps-and_then (raise e) f kf = λ s h. h

  pub Keeps-bind :
      {A B : Type 0} (m : Exec E S A) (f : A → Exec E S B)
      → Keeps P m
      → ((a : A) → Keeps P (f a))
      → Keeps P (m >>= f)
  Keeps-bind m f km kf s h = let (r, s') = m s in Keeps-and_then r f kf s' (km s h)

module _ {E A B : Type 0} where
  -- `[f(x) for x in xs]`, where a call may raise.
  abbrev pub fmap : (A → B) → Result E A → Result E B
  fmap f (return a) = return (f a)
  fmap f (raise e) = raise e

  abbrev pub then_result : Result E A → (A → Result E B) → Result E B
  then_result (return a) f = f a
  then_result (raise e) f = raise e

  -- `raise` on None.
  abbrev pub or_raise : E → Option A → (A → Result E B) → Result E B
  or_raise e none f = raise e
  or_raise e (some a) f = f a

module _ {E A B : Type 0} where
  abbrev pub traverse : (A → Result E B) → List A → Result E (List B)
  traverse f [] = return []
  traverse f (x ∷ xs) = then_result (f x) λ y. fmap (λ ys. y ∷ ys) (traverse f xs)

  -- The same for one that may be missing.
  abbrev pub traverse_option : (A → Result E B) → Option A → Result E (Option B)
  traverse_option f none = return none
  traverse_option f (some x) = fmap some (f x)

-- Where the whole returns, the first step returned, and the state is the one of the second.
pub and_then-eq-return :
    {E S A B : Type 0} (r : Result E A) (f : A → Exec E S B) (s : S) {b : B}
    → (and_then r f s).0 ≡ return b
    → (a : A) × (r ≡ return a) × ((f a s).0 ≡ return b) × ((and_then r f s).1 ≡ (f a s).1)
and_then-eq-return (return a) f s e = (a, refl, e, refl)
and_then-eq-return (raise _) f s e = cc

-- Where every call returns, the list comprehension returns; `k` and `l` agree on each row.
pub traverse-return :
    {E A B K : Type 0} (f : A → Result E B) (k : A → K) (l : B → K) (xs : List A)
    → All (λ x. (y : B) × (f x ≡ return y) × (l y ≡ k x)) xs
    → (ys : List B) × (traverse f xs ≡ return ys) × (map l ys ≡ map k xs)
traverse-return f k l [] h = ([], refl, refl)
traverse-return f k l (x ∷ xs) ((y, e, same), h) =
    let (ys, es, rest) = traverse-return f k l xs h in
    (y ∷ ys, rw (e, es), ap₂ (λ a b. a ∷ b) same rest)

-- Every result of a list comprehension is the result of a call.
pub traverse-All :
    {E A B : Type 0} (f : A → Result E B) (Q : A → Type 0) (P : B → Type 0)
    → ((x : A) (y : B) → Q x → f x ≡ return y → P y)
    → (xs : List A) (ys : List B) → All Q xs
    → traverse f xs ≡ return ys
    → All P ys
traverse-All f Q P h [] [] q e = tt
traverse-All f Q P h [] (y ∷ ys) q e = cc
traverse-All {E} {B = B} f Q P h (x ∷ xs) ys q e =
    go (f x) refl (traverse f xs) (λ zs. traverse-All f Q P h xs zs q.1) e
  where
    go :
        (r : Result E B)
        → f x ≡ r
        → (s : Result E (List B)) → ((zs : List B) → s ≡ return zs → All P zs)
        → then_result r (λ y. fmap (λ zs. y ∷ zs) s) ≡ return ys
        → All P ys
    go (raise z) p s ih d = cc
    go (return y) p (raise z) ih d = cc
    go (return y) p (return zs) ih d = subst (λ r. All P (results zs r)) d (h x y q.0 p, ih zs refl)
      where
        results : List B → Result E (List B) → List B
        results d (return l) = l
        results d (raise z) = d

pub then_result-eq-return :
    {E A B : Type 0} (r : Result E A) (f : A → Result E B) {b : B}
    → then_result r f ≡ return b
    → (a : A) × (r ≡ return a) × (f a ≡ return b)
then_result-eq-return (return a) f e = (a, refl, e)
then_result-eq-return (raise x) f e = cc

-- ===== src/Base/Keys.antt =====
-- How a table's keys fare under an insertion and an update.
use mathlib.Core.Path.{◌≡◌, refl, ap, ap₂}
use mathlib.Core.Logic.{inl, inr}
use mathlib.Core.Bool.{Bool, true, false, ◌&&◌, not}
use mathlib.Core.Option.{Option, none, some}
use mathlib.Core.List.{List, [], ◌∷◌, ◌++◌, map, map-append}
use native.Mathlib.Omega.{arith}
use dvc.Base.Tests.{if◌then◌else◌, Bool-cases}
use dvc.Base.Equality.{Eq, ◌==◌, contains, pair_eq}
use dvc.Base.Lists.{find, any, update, or_else, map_option, given, All, Distinct, Distinct-snoc}

module _ {ℓ κ} {A : Type ℓ} (P : A → Type κ) where
  pub All-intro : (xs : List A) → ((x : A) → P x) → All P xs
  All-intro [] f = tt
  All-intro (x ∷ xs) f = (f x, All-intro xs f)

  pub All-snoc : (xs : List A) (y : A) → All P xs → P y → All P (xs ++ y ∷ [])
  All-snoc [] y h p = (p, tt)
  All-snoc (x ∷ xs) y h p = (h.0, All-snoc xs y h.1 p)

  pub All-update :
      (p : A → Bool) (f : A → A) (xs : List A)
      → ((x : A) → P x → P (f x))
      → All P xs
      → All P (update p f xs)
  All-update p f [] keep h = tt
  All-update p f (x ∷ xs) keep h = elim (Bool-cases (p x)) [
    | inl e ↦ rw e (keep x h.0, All-update p f xs keep h.1)
    | inr e ↦ rw e (h.0, All-update p f xs keep h.1)
  ]

  pub All-mono {μ} : {Q : A → Type μ} (xs : List A) → ((x : A) → P x → Q x) → All P xs → All Q xs
  All-mono [] f h = tt
  All-mono (x ∷ xs) f h = (f x h.0, All-mono xs f h.1)

module _ {ℓ κ} {A : Type ℓ} {K : Type κ} where
  pub map-update :
      (key : A → K) (p : A → Bool) (f : A → A) (xs : List A)
      → ((x : A) → key (f x) ≡ key x)
      → map key (update p f xs) ≡ map key xs
  map-update key p f [] same = refl
  map-update key p f (x ∷ xs) same = elim (Bool-cases (p x)) [
    | inl e ↦ rw e (ap₂ (λ a b. a ∷ b) (same x) (map-update key p f xs same))
    | inr e ↦ rw e (ap (λ b. key x ∷ b) (map-update key p f xs same))
  ]

  pub map-snoc :
      (key : A → K) (xs : List A) (y : A) → map key (xs ++ y ∷ []) ≡ map key xs ++ key y ∷ []
  map-snoc key xs y = map-append key xs (y ∷ [])

module _ {ℓ κ} {A : Type ℓ} {K : Type κ} ⦃e : Eq K⦄ (key : A → K) where
  pub contains-map : (xs : List A) (k : K) → contains (map key xs) k ≡ any (λ x. k == key x) xs
  contains-map [] k = refl
  contains-map (x ∷ xs) k = ground (arith, contains-map xs k)

  pub find-none :
      (xs : List A) (k : K) → find (λ x. k == key x) xs ≡ none → contains (map key xs) k ≡ false
  find-none [] k h = refl
  find-none (x ∷ xs) k h = ground (arith, find-none xs k)

  pub find_key : (xs : List A) (k : K) {y : A} → find (λ x. k == key x) xs ≡ some y → k ≡ key y
  find_key [] k h = cc
  find_key (x ∷ xs) k {y} h = ground (arith, find_key xs k {y = y})

  -- The row that is found is the only one of its key.
  pub find_unique :
      (xs : List A) (k : K) {y : A}
      → find (λ x. k == key x) xs ≡ some y
      → Distinct (map key xs)
      → All (λ x. k ≡ key x → x ≡ y) xs
  find_unique [] k h d = tt
  find_unique (x ∷ xs) k {y} h d = elim (e.dec k (key x)) [
    | yes p ↦ (λ _. ground arith, others xs (rw (← p) at d.0))
    | no n ↦ (λ p. absurd (n p), find_unique xs k (ground arith) d.1)
  ]
    where
      others : (zs : List A) → contains (map key zs) k ≡ false → All (λ z. k ≡ key z → z ≡ y) zs
      others [] a = tt
      others (z ∷ zs) a = (λ p. ground arith, others zs (ground arith))

  pub Distinct-insert :
      (xs : List A) (y : A)
      → contains (map key xs) (key y) ≡ false
      → Distinct (map key xs)
      → Distinct (map key (xs ++ y ∷ []))
  Distinct-insert xs y h d = rw map-snoc (Distinct-snoc (map key xs) (key y) h d)

  pub Distinct-update :
      (p : A → Bool) (f : A → A) (xs : List A)
      → ((x : A) → key (f x) ≡ key x)
      → Distinct (map key xs)
      → Distinct (map key (update p f xs))
  Distinct-update p f xs same d = rw (map-update key p f xs same) d

pub any_congr {ℓ} :
    {A : Type ℓ} (p q : A → Bool) (xs : List A) → ((x : A) → p x ≡ q x) → any p xs ≡ any q xs
any_congr p q [] same = refl
any_congr p q (x ∷ xs) same = ground (arith, same x, any_congr p q xs same)

pub pair-== {ℓ κ} :
    {A : Type ℓ} {B : Type κ} ⦃e : Eq A⦄ ⦃f : Eq B⦄ (a c : A) (b d : B)
    → ◌==◌ {A = A × B} (a, b) (c, d) ≡ (a == c && b == d)
unfolding pair_eq
pair-== a c b d = ground arith

-- A key that only the row of an absent uuid might have is absent too.
pub any_free {ℓ} :
    {A : Type ℓ} (same taken : A → Bool) (xs : List A)
    → any (λ x. not (same x) && taken x) xs ≡ false
    → any same xs ≡ false
    → any taken xs ≡ false
any_free same taken [] h g = refl
any_free same taken (x ∷ xs) h g = ground (arith, any_free same taken xs)

-- The row of one uuid gets a new key, which no other row has.
module _ {ℓ κ μ} {A : Type ℓ} {U : Type κ} {K : Type μ} ⦃eu : Eq U⦄ ⦃ek : Eq K⦄ (uuid : A → U)
    (key : A → K) (u : U) (f : A → A) (n : K) where
  not-contains_rename :
      (xs : List A) (k : K)
      → contains (map key xs) k ≡ false
      → ¬ (k ≡ n)
      → All (λ x. u ≡ uuid x → key (f x) ≡ n) xs
      → contains (map key (update (λ x. u == uuid x) f xs)) k ≡ false
  not-contains_rename [] k h ne r = refl
  not-contains_rename (x ∷ xs) k h ne r = ground (arith, not-contains_rename xs k, r.0)

  update_absent :
      (xs : List A) → contains (map uuid xs) u ≡ false → update (λ x. u == uuid x) f xs ≡ xs
  update_absent [] h = refl
  update_absent (x ∷ xs) h = ground (arith, update_absent xs)

  not-contains_free :
      (xs : List A)
      → contains (map uuid xs) u ≡ false
      → any (λ x. not (u == uuid x) && n == key x) xs ≡ false
      → contains (map key xs) n ≡ false
  not-contains_free [] h g = refl
  not-contains_free (x ∷ xs) h g = ground (arith, not-contains_free xs)

  pub Distinct-rename :
      (xs : List A)
      → Distinct (map uuid xs)
      → Distinct (map key xs)
      → All (λ x. u ≡ uuid x → key (f x) ≡ n) xs
      → any (λ x. not (u == uuid x) && n == key x) xs ≡ false
      → Distinct (map key (update (λ x. u == uuid x) f xs))
  Distinct-rename [] du dk r g = tt
  Distinct-rename (x ∷ xs) du dk r g = elim (eu.dec u (uuid x)) [
    | yes p ↦ (
      ground (
        arith,
        update_absent xs (rw (← p) at du.0),
        not-contains_free xs (rw (← p) at du.0),
        r.0 p,
      ),
      Distinct-rename xs du.1 dk.1 r.1 (ground arith),
    )
    | no q ↦ (
      ground (arith, not-contains_rename xs (key x) dk.0, r.1),
      Distinct-rename xs du.1 dk.1 r.1 (ground arith),
    )
  ]

module _ {ℓ κ} {A : Type ℓ} {K : Type κ} ⦃e : Eq K⦄ (key : A → K) where
  -- What a search by key finds after an update of the rows of one key.
  pub find-update :
      (u k : K) (f : A → A) (xs : List A)
      → ((x : A) → key (f x) ≡ key x)
      → find (λ x. k == key x) (update (λ x. u == key x) f xs)
        ≡ (if k == u then map_option f (find (λ x. k == key x) xs) else find (λ x. k == key x) xs)
  find-update u k f [] same = ground arith
  find-update u k f (x ∷ xs) same = ground (arith, find-update u k f xs same, same x)

pub find-snoc {ℓ} :
    {A : Type ℓ} (p : A → Bool) (xs : List A) (y : A)
    → find p (xs ++ y ∷ []) ≡ or_else (find p xs) (if p y then some y else none)
find-snoc p [] y = refl
find-snoc p (x ∷ xs) y = ground (arith, find-snoc p xs y)

pub find-any {ℓ} : {A : Type ℓ} (p : A → Bool) (xs : List A) → any p xs ≡ false → find p xs ≡ none
find-any p [] h = refl
find-any p (x ∷ xs) h = ground (arith, find-any p xs)

pub any-find {ℓ} :
    {A : Type ℓ} (p : A → Bool) (xs : List A) → any p xs ≡ true → (y : A) × (find p xs ≡ some y)
any-find p [] h = cc
any-find p (x ∷ xs) h = elim (Bool-cases (p x)) [
  | inl e ↦ (x, rw e)
  | inr e ↦ rw e (any-find p xs (ground arith))
]

pub any-find-none {ℓ} :
    {A : Type ℓ} (p : A → Bool) (xs : List A) → find p xs ≡ none → any p xs ≡ false
any-find-none p [] h = refl
any-find-none p (x ∷ xs) h = ground (arith, any-find-none p xs)

pub given-some {ℓ} : {A : Type ℓ} (o : Option A) → given o ≡ true → (a : A) × (o ≡ some a)
given-some none h = cc
given-some (some a) h = (a, refl)

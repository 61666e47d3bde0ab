-- ===== src/Base/Sorting.antt =====
-- Membership in selected and sorted lists, and what comes first in a sorted list.
use Prim.Native.Nat.{ℕ, ◌≤◌}
use mathlib.Core.Path.{◌≡◌, refl}
use mathlib.Core.Logic.{◌↔◌, ◌⊎◌, inl, inr}
use mathlib.Core.Bool.{Bool, true}
use mathlib.Core.Option.{none, some}
use mathlib.Core.List.{List, [], ◌∷◌, map}
use native.Mathlib.Nat.{le_trans}
use native.Mathlib.Omega.{arith}
use dvc.Base.Tests.{leb, if◌then◌else◌, Bool-cases, Option-cases}
use dvc.Base.Equality.{Eq, contains}
use dvc.Base.Lists.{find, all, select, order_by, insert_by, first, All, In}

module _ {ℓ} {A : Type ℓ} where
  -- A row that is there and passes the test is selected.
  pub In-select : (p : A → Bool) (x : A) (xs : List A) → In x xs → p x ≡ true → In x (select p xs)
  In-select p x [] h q = h
  In-select p x (y ∷ ys) (inl s) q = rw (rw s at q) (inl s)
  In-select p x (y ∷ ys) (inr m) q = elim (Bool-cases (p y)) [
    | inl e ↦ rw e (inr (In-select p x ys m q))
    | inr e ↦ rw e (In-select p x ys m q)
  ]

  -- A row that is selected is there and passes the test.
  pub In-of_select :
      (p : A → Bool) (x : A) (xs : List A) → In x (select p xs) → In x xs × (p x ≡ true)
  In-of_select p x [] h = absurd h.1
  In-of_select p x (y ∷ ys) h = elim (Bool-cases (p y)) [
    | inl e ↦ kept e (In-of_select p x ys) (rw e at h)
    | inr e ↦ let (m, q) = In-of_select p x ys (rw e at h) in (inr m, q)
  ]
    where
      kept :
          p y ≡ true
          → (In x (select p ys) → In x ys × (p x ≡ true))
          → (x ≡ y) ⊎ In x (select p ys)
          → ((x ≡ y) ⊎ In x ys) × (p x ≡ true)
      kept e ih (inl s) = (inl s, rw s e)
      kept e ih (inr m) = let (m', q) = ih m in (inr m', q)

  pub In-insert_by :
      (le : A → A → Bool) (x y : A) (ys : List A) → In x (insert_by le y ys) ↔ ((x ≡ y) ⊎ In x ys)
  In-insert_by le x y [] = (λ h. h, λ h. h)
  In-insert_by le x y (z ∷ zs) = elim (Bool-cases (le y z)) [
    | inl e ↦ rw e (λ h. h, λ h. h)
    | inr e ↦ rw e (into (In-insert_by le x y zs).0, out (In-insert_by le x y zs).1)
  ]
    where
      into :
          (In x (insert_by le y zs) → (x ≡ y) ⊎ In x zs)
          → (x ≡ z) ⊎ In x (insert_by le y zs)
          → (x ≡ y) ⊎ ((x ≡ z) ⊎ In x zs)
      into f (inl s) = inr (inl s)
      into f (inr m) = elim (f m) [ inl s ↦ inl s | inr m' ↦ inr (inr m') ]

      out :
          ((x ≡ y) ⊎ In x zs → In x (insert_by le y zs))
          → (x ≡ y) ⊎ ((x ≡ z) ⊎ In x zs)
          → (x ≡ z) ⊎ In x (insert_by le y zs)
      out f (inl s) = inr (f (inl s))
      out f (inr (inl s)) = inl s
      out f (inr (inr m)) = inr (f (inr m))

  -- Sorting keeps the rows.
  pub In-order_by : (le : A → A → Bool) (x : A) (xs : List A) → In x (order_by le xs) ↔ In x xs
  In-order_by le x [] = (λ h. h, λ h. h)
  In-order_by le x (y ∷ ys) = (
    λ h. elim ((In-insert_by le x y (order_by le ys)).0 h) [
      | inl s ↦ inl s
      | inr m ↦ inr ((In-order_by le x ys).0 m)
    ],
    λ h.
        (In-insert_by le x y (order_by le ys)).1
          (elim h [ inl s ↦ inl s | inr m ↦ inr ((In-order_by le x ys).1 m) ]),
  )

  pub All-In : (P : A → Type 0) (x : A) (xs : List A) → All P xs → In x xs → P x
  All-In P x (y ∷ ys) h (inl s) = rw s h.0
  All-In P x (y ∷ ys) h (inr m) = All-In P x ys h.1 m
  All-In P x [] h m = absurd m.1

  pub All-of_In : (P : A → Type 0) (xs : List A) → ((x : A) → In x xs → P x) → All P xs
  All-of_In P [] f = tt
  All-of_In P (x ∷ xs) f = (f x (inl refl), All-of_In P xs (λ y m. f y (inr m)))

-- Numbers that never fall.
abbrev pub Ascending : List ℕ → Type 0
Ascending [] = Unit
Ascending (n ∷ ns) = All (λ m. n ≤ m) ns × Ascending ns

module _ {ℓ} {A : Type ℓ} (number : A → ℕ) where
  All-insert_by :
      (n : ℕ) (x : A) (xs : List A)
      → n ≤ number x
      → All (λ m. n ≤ m) (map number xs)
      → All (λ m. n ≤ m) (map number (insert_by (λ a b. leb (number a) (number b)) x xs))
  All-insert_by n x [] h a = (h, tt)
  All-insert_by n x (y ∷ ys) h a = elim (Bool-cases (leb (number x) (number y))) [
    | inl e ↦ rw e (h, a)
    | inr e ↦ rw e (a.0, All-insert_by n x ys h a.1)
  ]

  All-raise : (n m : ℕ) (ns : List ℕ) → n ≤ m → All (λ k. m ≤ k) ns → All (λ k. n ≤ k) ns
  All-raise n m [] h a = tt
  All-raise n m (k ∷ ks) h a = (le_trans h a.0, All-raise n m ks h a.1)

  Ascending-insert_by :
      (x : A) (xs : List A)
      → Ascending (map number xs)
      → Ascending (map number (insert_by (λ a b. leb (number a) (number b)) x xs))
  Ascending-insert_by x [] a = (tt, tt)
  Ascending-insert_by x (y ∷ ys) a = elim (Bool-cases (leb (number x) (number y))) [
    | inl e ↦
        let h : number x ≤ number y = ground arith in
        rw e ((h, All-raise (number x) (number y) (map number ys) h a.0), a)
    | inr e ↦ rw e (All-insert_by (number y) x ys (ground arith) a.0, Ascending-insert_by x ys a.1)
  ]

  pub Ascending-order_by :
      (xs : List A) → Ascending (map number (order_by (λ a b. leb (number a) (number b)) xs))
  Ascending-order_by [] = tt
  Ascending-order_by (x ∷ xs) = Ascending-insert_by x _ (Ascending-order_by xs)

  first-insert_by :
      (le : A → A → Bool) (x : A) (xs : List A)
      → first (insert_by le x xs)
        ≡ elim (first xs) [ none ↦ some x | some y ↦ if le x y then some x else some y ]
  first-insert_by le x [] = refl
  first-insert_by le x (y ∷ ys) = ground arith

  pub first-In : (xs : List A) {r : A} → first xs ≡ some r → In r xs
  first-In [] h = cc
  first-In (x ∷ xs) h = inl (ground arith)

  pub first-none : (le : A → A → Bool) (xs : List A) → first (order_by le xs) ≡ none → xs ≡ []
  first-none le [] h = refl
  first-none le (x ∷ xs) h = ground (arith, first-insert_by le x (order_by le xs))

  All-below :
      (n m : ℕ) (xs : List A) → n ≤ m → All (λ x. number x ≤ n) xs → All (λ x. number x ≤ m) xs
  All-below n m [] h a = tt
  All-below n m (x ∷ xs) h a = (le_trans a.0 h, All-below n m xs h a.1)

  -- The first row in descending order has the greatest number.
  pub first-order_by :
      (xs : List A) {r : A}
      → first (order_by (λ a b. leb (number b) (number a)) xs) ≡ some r
      → All (λ x. number x ≤ number r) xs
  first-order_by [] h = tt
  first-order_by (x ∷ xs) {r} h =
      elim (Option-cases (first (order_by (λ a b. leb (number b) (number a)) xs))) [
        | inl e ↦ rw (first-none (λ a b. leb (number b) (number a)) xs e) (
          ground (
            arith,
            e,
            first-insert_by (λ a b. leb (number b) (number a)) x
                (order_by (λ a b. leb (number b) (number a)) xs),
          ),
          tt,
        )
        | inr (y, e) ↦ among y (first-order_by xs e) (leads y e)
      ]
    where
      leads :
          (y : A)
          → first (order_by (λ a b. leb (number b) (number a)) xs) ≡ some y
          → (number x ≤ number r) × (number y ≤ number r)
      leads y e = ground (
        arith,
        e,
        first-insert_by (λ a b. leb (number b) (number a)) x
            (order_by (λ a b. leb (number b) (number a)) xs),
      )

      among :
          (y : A)
          → All (λ z. number z ≤ number y) xs
          → (number x ≤ number r) × (number y ≤ number r)
          → All (λ z. number z ≤ number r) (x ∷ xs)
      among y a (hx, hy) = (hx, All-below (number y) (number r) xs hy a)

pub contains-In {ℓ κ} :
    {A : Type ℓ} {K : Type κ} ⦃e : Eq K⦄ (key : A → K) (x : A) (xs : List A)
    → In x xs
    → contains (map key xs) (key x) ≡ true
contains-In key x [] m = absurd m.1
contains-In key x (y ∷ ys) (inl s) = rw s (ground arith)
contains-In key x (y ∷ ys) (inr m) = ground (arith, contains-In key x ys m)

pub All-map {ℓ κ} :
    {A : Type ℓ} {K : Type κ} (P : K → Type 0) (key : A → K) (xs : List A)
    → All P (map key xs) ↔ All (λ x. P (key x)) xs
All-map P key [] = (λ h. h, λ h. h)
All-map P key (x ∷ xs) =
    (λ h. (h.0, (All-map P key xs).0 h.1), λ h. (h.0, (All-map P key xs).1 h.1))

pub all-All {ℓ} :
    {A : Type ℓ} (p : A → Bool) (xs : List A) → All (λ x. p x ≡ true) xs → all p xs ≡ true
all-All p [] h = refl
all-All p (x ∷ xs) h = ground (arith, all-All p xs)

pub find-In {ℓ} : {A : Type ℓ} (p : A → Bool) (xs : List A) {y : A} → find p xs ≡ some y → In y xs
find-In p [] h = cc
find-In p (x ∷ xs) {y} h = elim (Bool-cases (p x)) [
  | inl e ↦ inl (ground (arith, e))
  | inr e ↦ inr (find-In p xs (rw e at h))
]

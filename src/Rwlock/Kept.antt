-- ===== src/Rwlock/Kept.antt =====
-- What holds of the entries of the lock of dvc/rwlock.py, and holds of them after an operation.
use mathlib.Core.List.{map-append}
use dvc.Base.{
  ◌≡◌, ◌≢◌, ap, refl, String, true, Option, none, some, List, [], ◌∷◌, ◌++◌, ◌==◌, string_eq,
  nat_eq, pair_eq, contains, map, subst, sym, map_option, All, Result, return, raise, then_result,
  or_raise, Bool-cases, inl, inr, arith,
}
use dvc.Rwlock.{
  Info, Lock, Mode, unless_empty, or_empty, remove, delete_writer, delete_reader, release_write,
  release_read, delete_write, delete_read, add_reader, add_readers, add_writer, add_writers, spread,
  release, release_all,
}

-- Of what is returned.
abbrev pub Returns : {E A : Type 0} → (A → Type 0) → Result E A → Type 0
Returns P (return a) = P a
Returns P (raise e) = Unit

-- Of what is there.
abbrev pub Given : {A : Type 0} → (A → Type 0) → Option A → Type 0
Given P none = Unit
Given P (some a) = P a

Given-map_option :
    {A B : Type 0} {P : A → Type 0} (Q : B → Type 0) (f : A → B) (o : Option A)
    → Given P o
    → ((a : A) → P a → Q (f a))
    → Given Q (map_option f o)
Given-map_option Q f none h k = tt
Given-map_option Q f (some a) h k = k a h

pub eq_of_true : (a b : String) → (a == b) ≡ true → a ≡ b
eq_of_true a b h = ground arith

pub Returns-then_result :
    {E A B : Type 0} {P : A → Type 0} (Q : B → Type 0) (r : Result E A) (f : A → Result E B)
    → Returns P r
    → ((a : A) → P a → Returns Q (f a))
    → Returns Q (then_result r f)
Returns-then_result Q (return a) f h k = k a h
Returns-then_result Q (raise e) f h k = tt

pub Returns-or_raise :
    {E A B : Type 0} {P : A → Type 0} (Q : B → Type 0) (e : E) (o : Option A) (f : A → Result E B)
    → Given P o
    → ((a : A) → P a → Returns Q (f a))
    → Returns Q (or_raise e o f)
Returns-or_raise Q e none f h k = tt
Returns-or_raise Q e (some a) f h k = k a h

All-append : {A : Type 0} (P : A → Type 0) (xs ys : List A) → All P xs → All P ys → All P (xs ++ ys)
All-append P [] ys h k = k
All-append P (x ∷ xs) ys h k = (h.0, All-append P xs ys h.1 k)

pub All-of_append :
    {A : Type 0} (P : A → Type 0) (xs ys : List A) → All P (xs ++ ys) → All P xs × All P ys
All-of_append P [] ys h = (tt, h)
All-of_append P (x ∷ xs) ys h = let (a, b) = All-of_append P xs ys h.1 in ((h.0, a), b)

-- The pairs of a path and a process that writes it, or reads it.
abbrev pub writers : Lock → List (String × Info)
writers lock = or_empty lock.write

abbrev pub readers : Lock → List (String × Info)
readers lock = spread (or_empty lock.read)

module _ (P : String × Info → Type 0) where
  delete_writer-All :
      (info : Info) (url : String) (d : List (String × Info))
      → All P d
      → Given (All P) (delete_writer info url d)
  unfolding delete_writer
  delete_writer-All info url [] h = tt
  delete_writer-All info url ((k, i) ∷ d) h = elim (Bool-cases (url == k)) [
    | inl e ↦ elim (Bool-cases (i == info)) [ inl e' ↦ rw (e, e') h.1 | inr e' ↦ rw (e, e') tt ]
    | inr e ↦ rw e (
        Given-map_option (All P) (λ d'. (k, i) ∷ d') (delete_writer info url d)
          (delete_writer-All info url d h.1) (λ d' h'. (h.0, h')))
  ]

  remove-All :
      (k : String) (info : Info) (infos : List Info)
      → All P (map (λ i. (k, i)) infos)
      → All P (map (λ i. (k, i)) (remove info infos))
  unfolding remove
  remove-All k info [] h = tt
  remove-All k info (i ∷ infos) h = elim (Bool-cases (i == info)) [
    | inl e ↦ rw e h.1
    | inr e ↦ rw e (h.0, remove-All k info infos h.1)
  ]

  delete_reader-All :
      (info : Info) (url : String) (d : List (String × List Info))
      → All P (spread d)
      → Given (λ d'. All P (spread d')) (delete_reader info url d)
  unfolding delete_reader spread
  delete_reader-All info url [] h = tt
  delete_reader-All info url ((k, infos) ∷ d) h =
      let (here, rest) = All-of_append P (map (λ i. (k, i)) infos) (spread d) h in
      elim (Bool-cases (url == k)) [
        | inl e ↦ elim (Bool-cases (contains infos info)) [
          | inl e' ↦ rw (e, e') (left (remove info infos) (remove-All k info infos here) rest)
          | inr e' ↦ rw (e, e') tt
        ]
        | inr e ↦ rw e (
            Given-map_option (λ d'. All P (spread d')) (λ d'. (k, infos) ∷ d')
              (delete_reader info url d) (delete_reader-All info url d rest)
              (λ d' h'. All-append P (map (λ i. (k, i)) infos) (spread d') here h'))
      ]
    where
      left :
          (infos' : List Info)
          → All P (map (λ i. (k, i)) infos')
          → All P (spread d)
          → Given
              (λ d'. All P (spread d'))
              (elim infos' [ [] ↦ some d | i ∷ is ↦ some ((k, i ∷ is) ∷ d) ])
      left [] a b = b
      left (i ∷ is) a b = All-append P (map (λ i. (k, i)) (i ∷ is)) (spread d) a b

  pub add_writer-All :
      (info : Info) (path : String) (d : List (String × Info))
      → All P d
      → P (path, info)
      → All P (add_writer info path d).1
  unfolding add_writer
  add_writer-All info path [] h p = (p, tt)
  add_writer-All info path ((k, i) ∷ d) h p = elim (Bool-cases (path == k)) [
    | inl e ↦ rw e (subst (λ q. P (q, info)) (eq_of_true path k e) p, h.1)
    | inr e ↦ rw e (h.0, add_writer-All info path d h.1 p)
  ]

  pub add_reader-All :
      (info : Info) (path : String) (d : List (String × List Info))
      → All P (spread d)
      → P (path, info)
      → All P (spread (add_reader info path d).1)
  unfolding add_reader spread
  add_reader-All info path [] h p = (p, tt)
  add_reader-All info path ((k, infos) ∷ d) h p =
      let (here, rest) = All-of_append P (map (λ i. (k, i)) infos) (spread d) h in
      elim (Bool-cases (path == k)) [
        | inl e ↦ elim (Bool-cases (contains infos info)) [
          | inl e' ↦ rw (e, e') h
          | inr e' ↦
              rw (e, e', map-append {B = String × Info} (λ i. (k, i)) infos (info ∷ []))
                (All-append P (map (λ i. (k, i)) infos ++ (k, info) ∷ []) (spread d)
                  (All-append P (map (λ i. (k, i)) infos) ((k, info) ∷ []) here
                    (subst (λ q. P (q, info)) (eq_of_true path k e) p, tt))
                  rest)
        ]
        | inr e ↦ rw e (
            All-append P (map (λ i. (k, i)) infos) (spread (add_reader info path d).1) here
              (add_reader-All info path d rest p))
      ]

  pub add_writers-All :
      (info : Info) (paths : List String) (d : List (String × Info))
      → All P d
      → All (λ p. P (p, info)) paths
      → All P (add_writers info paths d).1
  unfolding add_writers
  add_writers-All info [] d h ps = h
  add_writers-All info (p ∷ paths) d h ps =
      add_writers-All info paths (add_writer info p d).1 (add_writer-All info p d h ps.0) ps.1

  pub add_readers-All :
      (info : Info) (paths : List String) (d : List (String × List Info))
      → All P (spread d)
      → All (λ p. P (p, info)) paths
      → All P (spread (add_readers info paths d).1)
  unfolding add_readers
  add_readers-All info [] d h ps = h
  add_readers-All info (p ∷ paths) d h ps =
      add_readers-All info paths (add_reader info p d).1 (add_reader-All info p d h ps.0) ps.1

-- `P` holds of the writers and `Q` of the readers.
abbrev pub Holds : (P Q : String × Info → Type 0) → Lock → Type 0
Holds P Q lock = All P (writers lock) × All Q (readers lock)

pub or_empty-unless_empty : {A : Type 0} (d : List A) → or_empty (unless_empty d) ≡ d
unfolding or_empty unless_empty
or_empty-unless_empty [] = refl
or_empty-unless_empty (x ∷ d) = refl

-- A dict that is not empty is there.
pub or_empty_lem :
    {A : Type 0} (o : Option (List A)) (d : List A) → or_empty o ≡ d → d ≢ [] → o ≡ some d
unfolding or_empty
or_empty_lem none d e full = absurd (full (sym e))
or_empty_lem (some l) d e full = ap some e

Given-or_empty :
    {A : Type 0} (P : List A → Type 0) (o : Option (List A)) → P (or_empty o) → Given P o
unfolding or_empty
Given-or_empty P none h = tt
Given-or_empty P (some d) h = h

module _ (P Q : String × Info → Type 0) where
  delete_write-Holds :
      (info : Info) (url : String) (lock : Lock)
      → Holds P Q lock
      → Returns (Holds P Q) (delete_write info url lock)
  unfolding delete_write
  delete_write-Holds info url lock h =
      Returns-or_raise (Holds P Q) _ lock.write _ (Given-or_empty (All P) lock.write h.0) λ d a.
        Returns-or_raise (Holds P Q) _ (delete_writer info url d) _
          (delete_writer-All P info url d a)
          λ d' a'. (subst (All P) (sym (or_empty-unless_empty d')) a', h.1)

  delete_read-Holds :
      (info : Info) (url : String) (lock : Lock)
      → Holds P Q lock
      → Returns (Holds P Q) (delete_read info url lock)
  unfolding delete_read
  delete_read-Holds info url lock h =
      Returns-or_raise (Holds P Q) _ lock.read _
        (Given-or_empty (λ d. All Q (spread d)) lock.read h.1)
        λ d a.
          Returns-or_raise (Holds P Q) _ (delete_reader info url d) _
            (delete_reader-All Q info url d a)
            λ d' a'. (h.0, subst (λ e. All Q (spread e)) (sym (or_empty-unless_empty d')) a')

  pub release_write-Holds :
      (info : Info) (changes : List String) (lock : Lock)
      → Holds P Q lock
      → Returns (Holds P Q) (release_write info changes lock)
  unfolding release_write
  release_write-Holds info [] lock h = h
  release_write-Holds info (url ∷ changes) lock h =
      Returns-then_result (Holds P Q) (delete_write info url lock) (release_write info changes)
        (delete_write-Holds info url lock h) (release_write-Holds info changes)

  pub release_read-Holds :
      (info : Info) (changes : List String) (lock : Lock)
      → Holds P Q lock
      → Returns (Holds P Q) (release_read info changes lock)
  unfolding release_read
  release_read-Holds info [] lock h = h
  release_read-Holds info (url ∷ changes) lock h =
      Returns-then_result (Holds P Q) (delete_read info url lock) (release_read info changes)
        (delete_read-Holds info url lock h) (release_read-Holds info changes)

  release-Holds :
      (mode : Mode) (info : Info) (paths : List String) (lock : Lock)
      → Holds P Q lock
      → Returns (Holds P Q) (release mode info paths lock)
  unfolding release
  release-Holds Mode.read = release_read-Holds
  release-Holds Mode.write = release_write-Holds

  pub release_all-Holds :
      (mode : Mode) (g : List (Info × List String)) (lock : Lock)
      → Holds P Q lock
      → Returns (Holds P Q) (release_all mode g lock)
  unfolding release_all
  release_all-Holds mode [] lock h = h
  release_all-Holds mode ((i, paths) ∷ g) lock h =
      Returns-then_result (Holds P Q) (release mode i paths lock) (release_all mode g)
        (release-Holds mode i paths lock h) (release_all-Holds mode g)

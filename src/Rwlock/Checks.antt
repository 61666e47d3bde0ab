-- ===== src/Rwlock/Checks.antt =====
-- What `_check_blockers` of dvc/rwlock.py lets through.
use mathlib.Core.List.{cons≢nil}
use mathlib.Core.Option.{some-injective}
use dvc.Base.{
  ◌≡◌, refl, sym, subst, String, Bool, false, not, ◌&&◌, Option, none, some, List, [], ◌∷◌, ◌==◌,
  string_eq, nat_eq, pair_eq, ℕ, any, select, map, map_option, All, All-mono, Result, return, raise,
  Bool-cases, inl, inr,
}
use dvc.Rwlock.{
  Info, Lock, Mode, or_empty, spread, items, grouped, release_all, overlapped, blocked_by,
  check_blockers,
}
use dvc.Rwlock.Kept.{
  Returns, Given, Returns-or_raise, Returns-then_result, writers, readers, Holds, release_all-Holds,
}

Given-itself : {A : Type 0} (o : Option A) → Given (λ a. o ≡ some a) o
Given-itself none = tt
Given-itself (some a) = refl

All-under : {A B : Type 0} (P : A → Type 0) (xs : List A) → (B → All P xs) → All (λ x. B → P x) xs
All-under P [] h = tt
All-under P (x ∷ xs) h = (λ b. (h b).0, All-under P xs (λ b. (h b).1))

pub All-unit : {A : Type 0} (U : A → Type 0) (xs : List A) → ((x : A) → U x) → All U xs
All-unit U [] u = tt
All-unit U (x ∷ xs) u = (u x, All-unit U xs u)

All-spread :
    (R : String × Info → Type 0) (o : Option (List (String × List Info)))
    {held : List (String × Info)}
    → map_option spread o ≡ some held
    → All R held
    → All R (spread (or_empty o))
unfolding or_empty
All-spread R none e h = cc
All-spread R (some d) {held} e h = subst (All R) (sym (some-injective (spread d) held e)) h

pub Returns-mono :
    {E A : Type 0} (P : A → Type 0) (Q : A → Type 0) (r : Result E A)
    → ((a : A) → P a → Q a)
    → Returns P r
    → Returns Q r
Returns-mono P Q (return a) f h = f a h
Returns-mono P Q (raise e) f h = tt

module _ (overlaps : String → String → Bool) (alive : ℕ → Bool) where
  -- An entry that does not block the process.
  abbrev pub Passes : Info → List String → String × Info → Type 0
  Passes info waiters x =
      ((any (λ w. overlaps w x.0) waiters && not (x.1 == info)) && alive x.1.0) ≡ false

  abbrev blockers : Info → List String → List (String × Info) → List Info
  blockers info waiters held =
      map (λ x. x.1) (select (λ x. alive x.1.0) (overlapped overlaps alive info waiters held))

  blockers_none :
      (info : Info) (waiters : List String) (held : List (String × Info))
      → blockers info waiters held ≡ []
      → All (Passes info waiters) held
  unfolding overlapped
  blockers_none info waiters [] h = tt
  blockers_none info waiters (x ∷ held) h =
      elim (Bool-cases (any (λ w. overlaps w x.0) waiters && not (x.1 == info))) [
        | inl e ↦ elim (Bool-cases (alive x.1.0)) [
          | inl e' ↦ absurd (cons≢nil (rw (e, e') at h))
          | inr e' ↦ (rw (e, e') refl, blockers_none info waiters held (rw (e, e') at h))
        ]
        | inr e ↦ (rw e refl, blockers_none info waiters held (rw e at h))
      ]

  blocked_by-Returns :
      (bs : List Info) (lock : Lock) (R : Lock → Type 0)
      → (bs ≡ [] → R lock)
      → Returns R (blocked_by bs lock)
  unfolding blocked_by
  blocked_by-Returns [] lock R h = h refl
  blocked_by-Returns (b ∷ bs) lock R h = tt

  -- What holds of the entries if nobody blocks, holds after the check.
  check_blockers-Holds :
      (mode : Mode) (info : Info) (waiters : List String) (lock : Lock)
      (P Q : String × Info → Type 0)
      → ((held : List (String × Info))
          → items mode lock ≡ some held
          → Holds
              (λ x. blockers info waiters held ≡ [] → P x)
              (λ x. blockers info waiters held ≡ [] → Q x)
              lock)
      → Returns (Holds P Q) (check_blockers overlaps alive mode info waiters lock)
  unfolding check_blockers
  check_blockers-Holds mode info waiters lock P Q h =
      Returns-or_raise (Holds P Q) _ (items mode lock) _ (Given-itself (items mode lock)) λ held e.
        Returns-then_result (Holds P Q)
          (release_all mode
            (grouped (select (λ x. not (alive x.1.0)) (overlapped overlaps alive info waiters held))
              [])
            lock)
          (blocked_by (blockers info waiters held))
          (release_all-Holds (λ x. blockers info waiters held ≡ [] → P x)
            (λ x. blockers info waiters held ≡ [] → Q x) mode _ lock (h held e))
          λ lock' k. blocked_by-Returns (blockers info waiters held) lock' (Holds P Q) λ nobody. (
            All-mono (λ x. blockers info waiters held ≡ [] → P x) (writers lock') (λ x f. f nobody)
                k.0,
            All-mono (λ x. blockers info waiters held ≡ [] → Q x) (readers lock') (λ x f. f nobody)
                k.1,
          )

  pub check_blockers_kept :
      (mode : Mode) (info : Info) (waiters : List String) (lock : Lock)
      (P Q : String × Info → Type 0)
      → Holds P Q lock
      → Returns (Holds P Q) (check_blockers overlaps alive mode info waiters lock)
  check_blockers_kept mode info waiters lock P Q h =
      check_blockers-Holds mode info waiters lock P Q λ held e.
        (All-mono P (writers lock) (λ x p _. p) h.0, All-mono Q (readers lock) (λ x p _. p) h.1)

  pub check_writers-Passes :
      (info : Info) (waiters : List String) (lock : Lock)
      → Returns
          (λ l. All (Passes info waiters) (writers l))
          (check_blockers overlaps alive Mode.write info waiters lock)
  unfolding items or_empty
  check_writers-Passes info waiters lock =
      Returns-mono (Holds (Passes info waiters) (λ x. Unit))
        (λ l. All (Passes info waiters) (writers l)) _ (λ l h. h.0)
        (check_blockers-Holds Mode.write info waiters lock (Passes info waiters) (λ x. Unit)
          λ held e. (
            subst
                (λ w.
                  All (λ x. blockers info waiters held ≡ [] → Passes info waiters x) (or_empty w))
                (sym e) (All-under (Passes info waiters) held (blockers_none info waiters held)),
            All-unit (λ x. _ → Unit) (readers lock) (λ x _. tt),
          ))

  pub check_readers-Passes :
      (info : Info) (waiters : List String) (lock : Lock)
      → Returns
          (λ l. All (Passes info waiters) (readers l))
          (check_blockers overlaps alive Mode.read info waiters lock)
  unfolding items or_empty
  check_readers-Passes info waiters lock =
      Returns-mono (Holds (λ x. Unit) (Passes info waiters))
        (λ l. All (Passes info waiters) (readers l)) _ (λ l h. h.1)
        (check_blockers-Holds Mode.read info waiters lock (λ x. Unit) (Passes info waiters)
          λ held e. (
            All-unit (λ x. _ → Unit) (writers lock) (λ x _. tt),
            All-spread (λ x. blockers info waiters held ≡ [] → Passes info waiters x) lock.read e
                (All-under (Passes info waiters) held (blockers_none info waiters held)),
          ))

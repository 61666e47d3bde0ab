-- ===== src/Rwlock/Blocked.antt =====
-- Whom the LockError of dvc/rwlock.py names.
use dvc.Base.{
  ◌≡◌, subst, String, Bool, true, not, ◌&&◌, Option, none, some, List, [], ◌∷◌, ◌++◌, ◌==◌,
  string_eq, nat_eq, pair_eq, ℕ, any, select, map, All, Result, return, raise, then_result,
  or_raise, Bool-cases, inl, inr, arith,
}
use dvc.Rwlock.{
  delete_writer, delete_reader, Info, Lock, LockFailure, lock_error, assertion_error, key_error,
  Mode, delete_write, delete_read, release_write, release_read, release, release_all, items,
  blocked_by, overlapped, check_blockers, enter, loaded,
}

-- Of what is raised.
abbrev Raises : {E A : Type 0} → (E → Type 0) → Result E A → Type 0
Raises P (return a) = Unit
Raises P (raise e) = P e

Raises-then_result :
    {E A B : Type 0} (P : E → Type 0) (r : Result E A) (f : A → Result E B)
    → Raises P r
    → ((a : A) → Raises P (f a))
    → Raises P (then_result r f)
Raises-then_result P (return a) f h k = k a
Raises-then_result P (raise e) f h k = h

Raises-or_raise :
    {E A B : Type 0} (P : E → Type 0) (e : E) (o : Option A) (f : A → Result E B)
    → P e
    → ((a : A) → Raises P (f a))
    → Raises P (or_raise e o f)
Raises-or_raise P e none f h k = h
Raises-or_raise P e (some a) f h k = k a

-- An entry of a live process, with another pid or another command.
abbrev pub blocks : (ℕ → Bool) → Info → Info → Bool
blocks alive info b = alive b.0 && not (b == info)

module _ (overlaps : String → String → Bool) (alive : ℕ → Bool) (info : Info) where
  abbrev NamesBlockers : LockFailure → Type 0
  NamesBlockers (lock_error bs) = All (λ b. blocks alive info b ≡ true) bs
  NamesBlockers assertion_error = Unit
  NamesBlockers key_error = Unit

  release_write-Raises :
      (i : Info) (changes : List String) (lock : Lock)
      → Raises NamesBlockers (release_write i changes lock)
  unfolding release_write delete_write
  release_write-Raises i [] lock = tt
  release_write-Raises i (url ∷ changes) lock =
      Raises-then_result NamesBlockers (delete_write i url lock) (release_write i changes)
        (Raises-or_raise NamesBlockers assertion_error lock.write _ tt λ d.
          Raises-or_raise {B = Lock} NamesBlockers assertion_error (delete_writer i url d) _ tt
            λ d'. tt)
        (release_write-Raises i changes)

  release_read-Raises :
      (i : Info) (changes : List String) (lock : Lock)
      → Raises NamesBlockers (release_read i changes lock)
  unfolding release_read delete_read
  release_read-Raises i [] lock = tt
  release_read-Raises i (url ∷ changes) lock =
      Raises-then_result NamesBlockers (delete_read i url lock) (release_read i changes)
        (Raises-or_raise NamesBlockers assertion_error lock.read _ tt λ d.
          Raises-or_raise {B = Lock} NamesBlockers assertion_error (delete_reader i url d) _ tt
            λ d'. tt)
        (release_read-Raises i changes)

  release-Raises :
      (mode : Mode) (i : Info) (paths : List String) (lock : Lock)
      → Raises NamesBlockers (release mode i paths lock)
  unfolding release
  release-Raises Mode.read = release_read-Raises
  release-Raises Mode.write = release_write-Raises

  release_all-Raises :
      (mode : Mode) (g : List (Info × List String)) (lock : Lock)
      → Raises NamesBlockers (release_all mode g lock)
  unfolding release_all
  release_all-Raises mode [] lock = tt
  release_all-Raises mode ((i, paths) ∷ g) lock =
      Raises-then_result NamesBlockers (release mode i paths lock) (release_all mode g)
        (release-Raises mode i paths lock) (release_all-Raises mode g)

  blockers-All :
      (waiters : List String) (held : List (String × Info))
      → All
          (λ b. blocks alive info b ≡ true)
          (map (λ x. x.1) (select (λ x. alive x.1.0) (overlapped overlaps alive info waiters held)))
  unfolding overlapped
  blockers-All waiters [] = tt
  blockers-All waiters (x ∷ held) =
      elim (Bool-cases (any (λ w. overlaps w x.0) waiters && not (x.1 == info))) [
        | inl e ↦ elim (Bool-cases (alive x.1.0)) [
          | inl e' ↦ rw (e, e') (ground arith, blockers-All waiters held)
          | inr e' ↦ rw (e, e') (blockers-All waiters held)
        ]
        | inr e ↦ rw e (blockers-All waiters held)
      ]

  blocked_by-Raises :
      (bs : List Info) (lock : Lock)
      → All (λ b. blocks alive info b ≡ true) bs
      → Raises NamesBlockers (blocked_by bs lock)
  unfolding blocked_by
  blocked_by-Raises [] lock h = tt
  blocked_by-Raises (b ∷ bs) lock h = h

  check_blockers-Raises :
      (mode : Mode) (waiters : List String) (lock : Lock)
      → Raises NamesBlockers (check_blockers overlaps alive mode info waiters lock)
  unfolding check_blockers
  check_blockers-Raises mode waiters lock =
      Raises-or_raise NamesBlockers key_error (items mode lock) _ tt λ held.
        Raises-then_result NamesBlockers _ _ (release_all-Raises mode _ lock)
          λ lock'. blocked_by-Raises _ lock' (blockers-All waiters held)

  enter-Raises :
      (reads writes : List String) (lock : Lock)
      → Raises NamesBlockers (enter overlaps alive info reads writes lock)
  unfolding enter loaded
  enter-Raises reads writes lock =
      Raises-then_result NamesBlockers _ _
        (check_blockers-Raises Mode.write (reads ++ writes) (loaded lock))
        λ lock1.
          Raises-then_result NamesBlockers _ _ (check_blockers-Raises Mode.read writes lock1)
            λ lock2. tt

  -- Where the entry raises LockError, the entries that it names all are of live processes, and none
  -- of them has both the pid and the command of the caller.
  pub enter-lock_error :
      (reads writes : List String) (lock : Lock) (bs : List Info)
      → enter overlaps alive info reads writes lock ≡ raise (lock_error bs)
      → All (λ b. blocks alive info b ≡ true) bs
  enter-lock_error reads writes lock bs e =
      subst (Raises NamesBlockers) e (enter-Raises reads writes lock)

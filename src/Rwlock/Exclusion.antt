-- ===== src/Rwlock/Exclusion.antt =====
-- No two live processes hold the lock of dvc/rwlock.py on paths that overlap, one of them to write.
use dvc.Base.{
  ◌≡◌, String, Bool, false, not, ◌&&◌, List, [], ◌∷◌, ◌++◌, ◌==◌, string_eq, nat_eq, pair_eq, ℕ,
  All, All-mono, Result, return, raise, arith,
}
use dvc.Rwlock.{
  Info, Lock, LockFailure, Mode, or_empty, loaded, check_blockers, acquire_read, acquire_write,
  enter,
}
use dvc.Rwlock.Kept.{
  Returns, Returns-then_result, All-of_append, writers, readers, Holds, add_writers-All,
  add_readers-All,
}
use dvc.Rwlock.Checks.{
  All-unit, Returns-mono, Passes, check_blockers_kept, check_writers-Passes, check_readers-Passes,
}

Returns-both :
    {E A : Type 0} (P : A → Type 0) (Q : A → Type 0) (r : Result E A)
    → Returns P r
    → Returns Q r
    → Returns (λ a. P a × Q a) r
Returns-both P Q (return a) h k = (h, k)
Returns-both P Q (raise e) h k = tt

All-swap :
    {A B : Type 0} (R : A → B → Type 0) (xs : List A) (ys : List B)
    → All (λ x. All (R x) ys) xs
    → All (λ y. All (λ x. R x y) xs) ys
All-swap R xs [] h = tt
All-swap R xs (y ∷ ys) h = (
  All-mono (λ x. All (R x) (y ∷ ys)) xs (λ x k. k.0) h,
  All-swap R xs ys (All-mono (λ x. All (R x) (y ∷ ys)) xs (λ x k. k.1) h),
)

All-both :
    {A : Type 0} (P Q : A → Type 0) (xs : List A) → All P xs → All Q xs → All (λ x. P x × Q x) xs
All-both P Q [] h k = tt
All-both P Q (x ∷ xs) h k = ((h.0, k.0), All-both P Q xs h.1 k.1)

module _ (overlaps : String → String → Bool) (alive : ℕ → Bool) where
  -- Two live processes that are not the same hold paths that overlap.
  abbrev pub clash : String × Info → String × Info → Bool
  clash a b = not (a.1 == b.1) && (alive a.1.0 && alive b.1.0 && overlaps a.0 b.0)

  -- A writer clashes with no writer and no reader.
  abbrev pub IsFree : Lock → String × Info → Type 0
  IsFree lock a =
      All (λ b. clash a b ≡ false) (writers lock) × All (λ b. clash a b ≡ false) (readers lock)

  abbrev pub IsExclusive : Lock → Type 0
  IsExclusive lock = All (IsFree lock) (writers lock)

  IsExclusive-kept :
      (r : Result LockFailure Lock) (lock : Lock)
      → ((P Q : String × Info → Type 0) → Holds P Q lock → Returns (Holds P Q) r)
      → IsExclusive lock
      → Returns IsExclusive r
  IsExclusive-kept (raise e) lock keep h = tt
  IsExclusive-kept (return lock') lock keep h =
      (keep (IsFree lock') (λ _. Unit)
        (
          All-mono (IsFree lock) (writers lock)
              (λ a free. keep (λ b. clash a b ≡ false) (λ b. clash a b ≡ false) free) h,
          All-unit (λ _. Unit) (readers lock) (λ _. tt),
        )).0

  clash_same : (info : Info) (p q : String) → clash (p, info) (q, info) ≡ false
  clash_same info p q = ground arith

  Passes-clash :
      (info : Info) (waiters : List String) (x : String × Info)
      → ((p q : String) → overlaps p q ≡ overlaps q p)
      → Passes overlaps alive info waiters x
      → All (λ w. (clash x (w, info) ≡ false) × (clash (w, info) x ≡ false)) waiters
  Passes-clash info [] x s h = tt
  Passes-clash info (w ∷ waiters) x s h = (
    (ground (arith, s w x.0), ground (arith, s w x.0)),
    Passes-clash info waiters x s (ground arith),
  )

  -- An entry and an added path.
  abbrev Apart : Info → String × Info → String → Type 0
  Apart info x w = (clash x (w, info) ≡ false) × (clash (w, info) x ≡ false)

  acquired-IsExclusive :
      ((p q : String) → overlaps p q ≡ overlaps q p)
      → (info : Info) (reads writes : List String) (lock : Lock) → IsExclusive lock
      → All (Passes overlaps alive info (reads ++ writes)) (writers lock)
      → All (Passes overlaps alive info writes) (readers lock)
      → IsExclusive (acquire_write info writes (acquire_read info reads lock).1).1
  unfolding acquire_write acquire_read or_empty
  acquired-IsExclusive symmetric info reads writes lock x f g =
      add_writers-All (IsFree after) info writes (writers lock)
        (All-mono (λ a. IsFree lock a × All (Apart info a) (reads ++ writes)) (writers lock) old
          (All-both (IsFree lock) (λ a. All (Apart info a) (reads ++ writes)) (writers lock) x
            apart))
        (All-both (λ w. All (λ b. clash (w, info) b ≡ false) (writers after))
          (λ w. All (λ b. clash (w, info) b ≡ false) (readers after)) writes
          (All-mono (λ w. All (λ a. Apart info a w) (writers lock)) writes
            (λ w k.
              add_writers-All (λ b. clash (w, info) b ≡ false) info writes (writers lock)
                (All-mono (λ a. Apart info a w) (writers lock) (λ a m. m.1) k) (same w writes))
            (All-swap (Apart info) (writers lock) writes (
              All-mono (λ a. All (Apart info a) (reads ++ writes)) (writers lock)
                (λ a k. (All-of_append (Apart info a) reads writes k).1) apart)))
          (All-mono (λ w. All (λ a. Apart info a w) (readers lock)) writes
            (λ w k.
              add_readers-All (λ b. clash (w, info) b ≡ false) info reads (or_empty lock.read)
                (All-mono (λ a. Apart info a w) (readers lock) (λ a m. m.1) k) (same w reads))
            (All-swap (Apart info) (readers lock) writes (
              All-mono (Passes overlaps alive info writes) (readers lock)
                (λ a k. Passes-clash info writes a symmetric k) g))))
    where
      after : Lock
      after = (acquire_write info writes (acquire_read info reads lock).1).1

      same : (w : String) (ps : List String) → All (λ p. clash (w, info) (p, info) ≡ false) ps
      same w ps = All-unit (λ p. clash (w, info) (p, info) ≡ false) ps (λ p. clash_same info w p)

      apart : All (λ a. All (Apart info a) (reads ++ writes)) (writers lock)
      apart =
          All-mono (Passes overlaps alive info (reads ++ writes)) (writers lock)
            (λ a k. Passes-clash info (reads ++ writes) a symmetric k) f

      old :
          (a : String × Info)
          → IsFree lock a × All (Apart info a) (reads ++ writes)
          → IsFree after a
      old a (free, k) =
          let (kr, kw) = All-of_append (Apart info a) reads writes k in
          (
            add_writers-All (λ b. clash a b ≡ false) info writes (writers lock) free.0
                (All-mono (Apart info a) writes (λ w m. m.0) kw),
            add_readers-All (λ b. clash a b ≡ false) info reads (or_empty lock.read) free.1
                (All-mono (Apart info a) reads (λ w m. m.0) kr),
          )

  -- Where a path overlaps each path that overlaps it: if no two live processes hold paths that
  -- overlap, one of them to write, then no two do after the entry of a process that is let in.
  pub enter-IsExclusive :
      ((p q : String) → overlaps p q ≡ overlaps q p)
      → (info : Info) (reads writes : List String) (lock : Lock) → IsExclusive lock
      → Returns (λ r. IsExclusive r.1) (enter overlaps alive info reads writes lock)
  unfolding enter loaded or_empty
  enter-IsExclusive symmetric info reads writes lock x =
      Returns-then_result Done (check Mode.write (reads ++ writes) (loaded lock)) _
        (Returns-both IsExclusive
          (λ l. All (Passes overlaps alive info (reads ++ writes)) (writers l))
          (check Mode.write (reads ++ writes) (loaded lock))
          (IsExclusive-kept (check Mode.write (reads ++ writes) (loaded lock)) (loaded lock)
            (check_blockers_kept overlaps alive Mode.write info (reads ++ writes) (loaded lock)) x)
          (check_writers-Passes overlaps alive info (reads ++ writes) (loaded lock)))
        λ lock1 (x1, f1).
          Returns-then_result Done (check Mode.read writes lock1) _
            (Returns-both IsExclusive
              (λ l.
                All (Passes overlaps alive info (reads ++ writes)) (writers l)
                × All (Passes overlaps alive info writes) (readers l))
              (check Mode.read writes lock1)
              (IsExclusive-kept (check Mode.read writes lock1) lock1
                (check_blockers_kept overlaps alive Mode.read info writes lock1) x1)
              (Returns-both (λ l. All (Passes overlaps alive info (reads ++ writes)) (writers l))
                (λ l. All (Passes overlaps alive info writes) (readers l))
                (check Mode.read writes lock1)
                (Returns-mono (Holds (Passes overlaps alive info (reads ++ writes)) (λ _. Unit))
                  (λ l. All (Passes overlaps alive info (reads ++ writes)) (writers l))
                  (check Mode.read writes lock1) (λ l h. h.0)
                  (check_blockers_kept overlaps alive Mode.read info writes lock1
                    (Passes overlaps alive info (reads ++ writes)) (λ _. Unit)
                    (f1, All-unit (λ _. Unit) (readers lock1) (λ _. tt))))
                (check_readers-Passes overlaps alive info writes lock1)))
            λ lock2 h. acquired-IsExclusive symmetric info reads writes lock2 h.0 h.1.0 h.1.1
    where
      Done : (List String × List String) × Lock → Type 0
      Done r = IsExclusive r.1

      check : Mode → List String → Lock → Result LockFailure Lock
      check mode waiters = check_blockers overlaps alive mode info waiters

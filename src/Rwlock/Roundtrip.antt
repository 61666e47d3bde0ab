-- ===== src/Rwlock/Roundtrip.antt =====
-- The lock of dvc/rwlock.py before an entry, and after the release of what the entry added.

use dvc.Base.{
  ◌≡◌, refl, sym, ap, subst, String, Bool, true, not, some, List, [], ◌∷◌, ◌++◌, ◌==◌, string_eq,
  nat_eq, pair_eq, ℕ, any, select, contains-append, then_result-eq-return, contains, map, All,
  Result, return, Bool-cases, inl, inr, arith,
}
use dvc.Rwlock.Checks.{Passes, check_writers-Passes}
use dvc.Rwlock.Kept.{eq_of_true, Returns, writers, readers}
use dvc.Rwlock.{
  Mode, items, grouped, release_all, overlapped, blocked_by, check_blockers, acquire_read,
  acquire_write, enter, leave, Info, Lock, LockFailure, or_empty, loaded,
}
use dvc.Rwlock.Writes.{written, Own, add_writers-AddsWriters, release_written}
use dvc.Rwlock.Reads.{adds, Full, add_readers-AddsReaders, release_read-adds}

module _ (overlaps : String → String → Bool) (alive : ℕ → Bool) (info : Info) where
  abbrev dead : List String → List (String × Info) → List (String × Info)
  dead waiters held = select (λ x. not (alive x.1.0)) (overlapped overlaps alive info waiters held)

  dead-alive :
      (waiters : List String) (held : List (String × Info))
      → All (λ x. alive x.1.0 ≡ true) held
      → dead waiters held ≡ []
  unfolding overlapped
  dead-alive waiters [] h = refl
  dead-alive waiters (x ∷ held) h = ground (arith, h.0, dead-alive waiters held h.1)

  -- Where all processes live, a check that returns changes nothing.
  check_blockers-alive :
      (mode : Mode) (waiters : List String) (lock : Lock) (held : List (String × Info))
      {lock' : Lock}
      → items mode lock ≡ some held
      → All (λ x. alive x.1.0 ≡ true) held
      → check_blockers overlaps alive mode info waiters lock ≡ return lock'
      → lock ≡ lock'
  unfolding check_blockers release_all grouped blocked_by
  check_blockers-alive mode waiters lock held {lock'} is h e =
      go (map (λ x. x.1) (select (λ x. alive x.1.0) (overlapped overlaps alive info waiters held)))
        (rw (is, dead-alive waiters held h) at e)
    where
      go : (bs : List Info) → blocked_by bs lock ≡ return lock' → lock ≡ lock'
      go [] e = ground arith
      go (b ∷ bs) e = cc

  contains-overlaps :
      (ws : List String) (p : String)
      → overlaps p p ≡ true
      → contains ws p ≡ true
      → any (λ w. overlaps w p) ws ≡ true
  contains-overlaps [] p same h = cc
  contains-overlaps (w ∷ ws) p same h = elim (Bool-cases (p == w)) [
    | inl e ↦
        (let here : overlaps w p ≡ true =
            subst (λ q. overlaps q p ≡ true) (eq_of_true p w e) same in
          ground (arith, here))
    | inr e ↦ ground (arith, e, contains-overlaps ws p same)
  ]

  Passes-Own :
      ((p : String) → overlaps p p ≡ true)
      → (reads writes : List String) (d : List (String × Info)) → All (λ x. alive x.1.0 ≡ true) d
      → All (Passes overlaps alive info (reads ++ writes)) d
      → Own info writes d
  Passes-Own same reads writes [] h f = tt
  Passes-Own same reads writes (x ∷ d) h f = (
    ground (
      arith,
      h.0,
      f.0,
      contains-append reads writes x.0,
      contains-overlaps (reads ++ writes) x.0 (same x.0),
    ),
    Passes-Own same reads writes d h.1 f.1,
  )

  -- The paths are released, and the lock is the one that was acquired.
  abbrev LeavesTo : Lock → (List String × List String) × Lock → Type 0
  LeavesTo lock r =
      (lock' : Lock) × (leave info r.0.0 r.0.1 r.1 ≡ return lock') × (loaded lock' ≡ loaded lock)

  -- The entry without the checks.
  abbrev acquired : List String → List String → Lock → (List String × List String) × Lock
  acquired reads writes lock =
      let (rchanges, lock1) = acquire_read info reads lock in
      let (wchanges, lock2) = acquire_write info writes lock1 in ((rchanges, wchanges), lock2)

  acquired-LeavesTo :
      (reads writes : List String) (lock : Lock)
      → Own info writes (writers lock)
      → Full (or_empty lock.read)
      → LeavesTo lock (acquired reads writes (loaded lock))
  unfolding acquire_read acquire_write leave loaded or_empty
  acquired-LeavesTo reads writes lock own full =
      let (rc, er, fresh, distinct) = add_readers-AddsReaders info reads (or_empty lock.read) in
      let (wc, ew, new) = add_writers-AddsWriters info writes (writers lock) own in
      let (lock1, e1, w1, r1) =
        release_written info wc (writers lock)
          (record {
            read = some (adds info rc (or_empty lock.read));
            write = some (writers lock ++ written info wc);
          })
          refl new in
      let (lock2, e2, r2, w2) =
        release_read-adds info rc (or_empty lock.read) lock1 full (ap or_empty r1) fresh distinct in
      (lock2, rw (er, ew, e1) e2, rw (r2, w2, w1) refl)

  -- Where a path overlaps itself, all processes of the lock live, and no path has an empty list of
  -- readers: if an entry returns, then so does the release of the paths that it added, and it leaves
  -- the two dicts of the lock as they were before the entry.
  pub enter-leave :
      ((p : String) → overlaps p p ≡ true)
      → (reads writes : List String) (lock : Lock) {r : (List String × List String) × Lock}
      → All (λ x. alive x.1.0 ≡ true) (writers lock)
      → All (λ x. alive x.1.0 ≡ true) (readers lock)
      → Full (or_empty lock.read)
      → enter overlaps alive info reads writes lock ≡ return r
      → (lock' : Lock) × (leave info r.0.0 r.0.1 r.1 ≡ return lock') × (loaded lock' ≡ loaded lock)
  unfolding enter loaded or_empty items
  enter-leave same reads writes lock {r} live_writers live_readers full e =
      let (lock1, e1, k1) =
        then_result-eq-return (check Mode.write (reads ++ writes) (loaded lock)) _ e in
      let q1 =
        check_blockers-alive Mode.write (reads ++ writes) (loaded lock) (writers lock) refl
          live_writers e1 in
      let (lock2, e2, k2) = then_result-eq-return (check Mode.read writes lock1) _ k1 in
      let q2 =
        check_blockers-alive Mode.read writes (loaded lock) (readers lock) refl live_readers
          (subst (λ l. check Mode.read writes l ≡ return lock2) (sym q1) e2) in
      let ends : return (acquired reads writes (loaded lock)) ≡ return r =
        subst
          (λ l.
            ◌≡◌ {A = Result LockFailure ((List String × List String) × Lock)}
              (return (acquired reads writes l)) (return r))
          (sym q2) k2 in
      let passes =
        subst (Returns (λ l. All (Passes overlaps alive info (reads ++ writes)) (writers l))) e1
          (check_writers-Passes overlaps alive info (reads ++ writes) (loaded lock)) in
      let own = Passes-Own same reads writes (writers lock) live_writers (
        subst (λ l. All (Passes overlaps alive info (reads ++ writes)) (writers l)) (sym q1)
          passes) in
      subst (LeavesTo lock) (returned _ r ends) (acquired-LeavesTo reads writes lock own full)
    where
      check : Mode → List String → Lock → Result LockFailure Lock
      check mode waiters = check_blockers overlaps alive mode info waiters

      returned :
          (a b : (List String × List String) × Lock)
          → ◌≡◌ {A = Result LockFailure _} (return a) (return b)
          → a ≡ b
      returned a b e = ground arith

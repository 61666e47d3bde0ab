-- ===== src/Rwlock/Reads.antt =====
-- The paths that `_acquire_read` of dvc/rwlock.py adds, and their release.
use mathlib.Core.List.{cons≢nil}
use mathlib.Core.Option.{some-injective}
use dvc.Base.{
  ◌≡◌, ◌≢◌, Distinct, refl, sym, ap, ◌∙◌, subst, String, Bool, true, false, Option, none, some,
  List, [], ◌∷◌, ◌++◌, ◌==◌, string_eq, nat_eq, pair_eq, contains, All, All-mono, return,
  Bool-cases, inl, inr, arith, if◌then◌else◌,
}
use dvc.Rwlock.Kept.{eq_of_true, or_empty-unless_empty, or_empty_lem}
use dvc.Rwlock.{
  Info, Lock, or_empty, unless_empty, remove, delete_reader, delete_read, release_read, add_reader,
  add_readers,
}

-- The process reads the path.
unfoldable pub holds : Info → String → List (String × List Info) → Bool
holds info path [] = false
holds info path ((k, infos) ∷ d) = if path == k then contains infos info else holds info path d

-- The paths are added one after the other.
unfoldable pub adds : Info → List String → List (String × List Info) → List (String × List Info)
adds info [] d = d
adds info (p ∷ ps) d = adds info ps (add_reader info p d).1

-- No path has an empty list of readers.
abbrev pub Full : List (String × List Info) → Type 0
Full d = All (λ x. x.1 ≢ []) d

module _ (info : Info) where
  add_reader-held :
      (p : String) (d : List (String × List Info))
      → holds info p d ≡ true
      → add_reader info p d ≡ (false, d)
  unfolding add_reader holds
  add_reader-held p [] h = cc
  add_reader-held p ((k, infos) ∷ d) h = ground (arith, add_reader-held p d)

  add_reader-new :
      (p : String) (d : List (String × List Info))
      → holds info p d ≡ false
      → (add_reader info p d).0 ≡ true
  unfolding add_reader holds
  add_reader-new p [] h = refl
  add_reader-new p ((k, infos) ∷ d) h = ground (arith, add_reader-new p d)

  contains-snoc : (infos : List Info) → contains (infos ++ info ∷ []) info ≡ true
  contains-snoc [] = ground arith
  contains-snoc (i ∷ infos) = ground (arith, contains-snoc infos)

  holds-add_reader :
      (p : String) (d : List (String × List Info)) → holds info p (add_reader info p d).1 ≡ true
  unfolding add_reader holds
  holds-add_reader p [] = ground arith
  holds-add_reader p ((k, infos) ∷ d) = ground (arith, holds-add_reader p d, contains-snoc infos)

  holds-of_add_reader :
      (q p : String) (d : List (String × List Info))
      → holds info q (add_reader info p d).1 ≡ false
      → holds info q d ≡ false
  unfolding add_reader holds
  holds-of_add_reader q p [] h = refl
  holds-of_add_reader q p ((k, infos) ∷ d) h =
      ground (arith, holds-of_add_reader q p d, contains-snoc infos)

  contains-fresh :
      (p : String) (rc : List String) (d : List (String × List Info))
      → holds info p d ≡ true
      → All (λ r. holds info r d ≡ false) rc
      → contains rc p ≡ false
  contains-fresh p [] d h fresh = refl
  contains-fresh p (r ∷ rc) d h fresh = elim (Bool-cases (p == r)) [
    | inl e ↦
        (let bad : true ≡ false =
            sym h ∙ (subst (λ q. holds info q d ≡ false) (sym (eq_of_true p r e)) fresh.0) in
          cc)
    | inr e ↦ ground (arith, e, contains-fresh p rc d h fresh.1)
  ]

  -- The added paths, which are different, and the dict that they are added to.
  abbrev pub AddsReaders : List String → List (String × List Info) → Type 0
  AddsReaders ps d =
      (rc : List String) × (add_readers info ps d ≡ (rc, adds info rc d))
      × All (λ r. holds info r d ≡ false) rc
      × Distinct rc

  pub add_readers-AddsReaders :
      (ps : List String) (d : List (String × List Info)) → AddsReaders ps d
  unfolding add_readers adds
  add_readers-AddsReaders [] d = ([], refl, tt, tt)
  add_readers-AddsReaders (p ∷ ps) d =
      let (rc, e, fresh, distinct) = add_readers-AddsReaders ps d in
      let d1 = (add_reader info p d).1 in
      let (rc', e', fresh', distinct') = add_readers-AddsReaders ps d1 in
      elim (Bool-cases (holds info p d)) [
        | inl there ↦ (rc, rw (add_reader-held p d there, e) refl, fresh, distinct)
        | inr new ↦ (
          p ∷ rc',
          rw (add_reader-new p d new, e') refl,
          (
            new,
            All-mono (λ r. holds info r d1 ≡ false) rc' (λ r k. holds-of_add_reader r p d k) fresh',
          ),
          (contains-fresh p rc' d1 (holds-add_reader p d) fresh', distinct'),
        )
      ]

  remove-snoc :
      (infos : List Info) → contains infos info ≡ false → remove info (infos ++ info ∷ []) ≡ infos
  unfolding remove
  remove-snoc [] h = ground arith
  remove-snoc (i ∷ infos) h = ground (arith, remove-snoc infos)

  left_over :
      (k : String) (infos : List Info) (d : List (String × List Info))
      → infos ≢ []
      → ◌≡◌ {A = Option (List (String × List Info))}
          (elim infos [ [] ↦ some d | i ∷ is ↦ some ((k, i ∷ is) ∷ d) ])
          (some ((k, infos) ∷ d))
  left_over k [] d full = absurd (full refl)
  left_over k (i ∷ is) d full = refl

  delete_reader-add_reader :
      (p : String) (d : List (String × List Info))
      → Full d
      → holds info p d ≡ false
      → delete_reader info p (add_reader info p d).1 ≡ some d
  unfolding delete_reader add_reader holds remove
  delete_reader-add_reader p [] full h = ground arith
  delete_reader-add_reader p ((k, infos) ∷ d) full h = elim (Bool-cases (p == k)) [
    | inl e ↦
        (let none_there : contains infos info ≡ false = ground (arith, e) in
          rw (e, none_there, e, contains-snoc infos, remove-snoc infos none_there)
            (left_over k infos d full.0))
    | inr e ↦ ground (arith, e, delete_reader-add_reader p d full.1)
  ]

  -- A release of one path and an entry on another do not meet.
  delete_reader-other :
      (p q : String) (d : List (String × List Info)) {d' : List (String × List Info)}
      → (p == q) ≡ false
      → delete_reader info p d ≡ some d'
      → delete_reader info p (add_reader info q d).1 ≡ some (add_reader info q d').1
  unfolding delete_reader add_reader
  delete_reader-other p q [] other e = cc
  delete_reader-other p q ((k, infos) ∷ d) {d'} other e = elim (Bool-cases (p == k)) [
    | inl here ↦
        (let apart : (q == k) ≡ false = ground (arith, here, other) in
          elim (Bool-cases (contains infos info)) [
            | inl held ↦
                rw (apart, here, held) (left (remove info infos) apart (rw (here, held) at e))
            | inr absent ↦ (let bad : none ≡ some d' = rw (here, absent) at e in cc)
          ])
    | inr away ↦ go (delete_reader info p d) refl away (λ l x. delete_reader-other p q d other x)
  ]
    where
      added : List (String × List Info) → Option (List (String × List Info))
      added l = some (add_reader info q l).1

      left :
          (is : List Info)
          → (q == k) ≡ false
          → elim is [ [] ↦ some d | i ∷ is ↦ some ((k, i ∷ is) ∷ d) ] ≡ some d'
          → ◌≡◌ {A = Option (List (String × List Info))}
              (elim is [
                | [] ↦ some (add_reader info q d).1
                | i ∷ is ↦ some ((k, i ∷ is) ∷ (add_reader info q d).1)
              ])
              (some (add_reader info q d').1)
      left [] apart e = ap added (some-injective d d' e)
      left (i ∷ is) apart e =
          let first : some ((k, i ∷ is) ∷ (add_reader info q d).1) ≡ added ((k, i ∷ is) ∷ d) =
            rw apart refl in
          first ∙ ap added (some-injective ((k, i ∷ is) ∷ d) d' e)

      go :
          (r : Option (List (String × List Info)))
          → delete_reader info p d ≡ r
          → (p == k) ≡ false
          → ((l : List (String × List Info))
              → delete_reader info p d ≡ some l
              → delete_reader info p (add_reader info q d).1 ≡ added l)
          → delete_reader info p (add_reader info q ((k, infos) ∷ d)).1 ≡ added d'
      go none x away later = (let bad : none ≡ some d' = rw (away, x) at e in cc)
      go (some d1) x away later =
          let same : some ((k, infos) ∷ d1) ≡ some d' = rw (away, x) at e in
          let first : delete_reader info p (add_reader info q ((k, infos) ∷ d)).1
              ≡ added ((k, infos) ∷ d1) =
            ground (arith, away, x, later d1 x) in
          first ∙ ap added (some-injective ((k, infos) ∷ d1) d' same)

  delete_reader-adds :
      (p : String) (rc : List String) (d : List (String × List Info))
      {d' : List (String × List Info)}
      → contains rc p ≡ false
      → delete_reader info p d ≡ some d'
      → delete_reader info p (adds info rc d) ≡ some (adds info rc d')
  unfolding adds
  delete_reader-adds p [] d other e = e
  delete_reader-adds p (r ∷ rc) d other e =
      delete_reader-adds p rc (add_reader info r d).1 (ground arith)
        (delete_reader-other p r d (ground arith) e)

  deleted_full :
      (p : String) (d : List (String × List Info)) {d' : List (String × List Info)}
      → delete_reader info p d ≡ some d'
      → d ≢ []
  unfolding delete_reader
  deleted_full p [] {d'} e same = cc
  deleted_full p (x ∷ d) e same = cons≢nil same

  -- The added paths are released, and the rest stays.
  pub release_read-adds :
      (rc : List String) (d : List (String × List Info)) (lock : Lock)
      → Full d
      → or_empty lock.read ≡ adds info rc d
      → All (λ r. holds info r d ≡ false) rc
      → Distinct rc
      → (lock' : Lock) × (release_read info rc lock ≡ return lock')
        × (or_empty lock'.read ≡ d)
        × (lock'.write ≡ lock.write)
  unfolding release_read delete_read adds
  release_read-adds [] d lock full e fresh distinct = (lock, refl, e, refl)
  release_read-adds (r ∷ rc) d lock full e fresh distinct =
      let gone =
        delete_reader-adds r rc (add_reader info r d).1 distinct.0
          (delete_reader-add_reader r d full fresh.0) in
      let there =
        or_empty_lem lock.read (adds info rc (add_reader info r d).1) e
          (deleted_full r (adds info rc (add_reader info r d).1) gone) in
      let (lock', ends, rd, wr) =
        release_read-adds rc d (record lock { read = unless_empty (adds info rc d) }) full
          (or_empty-unless_empty (adds info rc d)) fresh.1 distinct.1 in
      (lock', rw (there, gone, ends) refl, rd, wr)

-- ===== src/Rwlock/Writes.antt =====
-- The paths that `_acquire_write` of dvc/rwlock.py adds, and their release.
use mathlib.Core.List.{append-nil, append_assoc, cons≢nil}
use dvc.Base.{
  ◌≡◌, ◌≢◌, refl, sym, ap, ◌∙◌, String, Bool, true, false, not, ◌&&◌, some, List, [], ◌∷◌, ◌++◌,
  ◌==◌, string_eq, nat_eq, pair_eq, contains, map, All, All-mono, return, Bool-cases, inl, inr,
  arith, if◌then◌else◌,
}
use dvc.Rwlock.Kept.{or_empty-unless_empty, or_empty_lem}
use dvc.Rwlock.{
  Info, Lock, or_empty, unless_empty, delete_writer, delete_write, release_write, add_writer,
  add_writers,
}

append_full : {A : Type 0} (d : List A) (x : A) (rest : List A) → d ++ x ∷ rest ≢ []
append_full [] x rest = cons≢nil
append_full (y ∷ d) x rest = cons≢nil

-- The dict of writers has the path.
unfoldable pub has_writer : String → List (String × Info) → Bool
has_writer path [] = false
has_writer path ((k, i) ∷ d) = if path == k then true else has_writer path d

-- The entries of these paths.
abbrev pub written : Info → List String → List (String × Info)
written info paths = map (λ p. (p, info)) paths

-- No other process writes the paths.
abbrev pub Own : Info → List String → List (String × Info) → Type 0
Own info paths d = All (λ x. (contains paths x.0 && not (x.1 == info)) ≡ false) d

module _ (info : Info) where
  has_writer-append :
      (q : String) (d : List (String × Info)) (p : String)
      → has_writer q (d ++ (p, info) ∷ []) ≡ false
      → has_writer q d ≡ false
  unfolding has_writer
  has_writer-append q [] p h = refl
  has_writer-append q ((k, i) ∷ d) p h = ground (arith, has_writer-append q d p)

  Own-append :
      (ps : List String) (d : List (String × Info)) (p : String)
      → Own info ps d
      → Own info ps (d ++ (p, info) ∷ [])
  Own-append ps [] p h = (ground arith, tt)
  Own-append ps (x ∷ d) p h = (h.0, Own-append ps d p h.1)

  -- A path that the process writes already is left, and a new one comes last.
  add_writer-Own :
      (p : String) (d : List (String × Info))
      → Own info (p ∷ []) d
      → add_writer info p d ≡ (if has_writer p d then (false, d) else (true, d ++ (p, info) ∷ []))
  unfolding add_writer has_writer
  add_writer-Own p [] h = refl
  add_writer-Own p ((k, i) ∷ d) h = elim (Bool-cases (p == k)) [
    | inl e ↦ (let same : i ≡ info = ground (arith, e) in ground (arith, e, same))
    | inr e ↦ ground (arith, e, add_writer-Own p d h.1)
  ]

  Own-rest :
      (p : String) (ps : List String) (d : List (String × Info))
      → Own info (p ∷ ps) d
      → Own info (p ∷ []) d × Own info ps d
  Own-rest p ps d h = (
    All-mono (λ x. (contains (p ∷ ps) x.0 && not (x.1 == info)) ≡ false) d (λ x e. ground arith) h,
    All-mono (λ x. (contains (p ∷ ps) x.0 && not (x.1 == info)) ≡ false) d (λ x e. ground arith) h,
  )

  -- The added paths, and that they come last and were not there.
  abbrev pub AddsWriters : List String → List (String × Info) → Type 0
  AddsWriters ps d =
      (wc : List String) × (add_writers info ps d ≡ (wc, d ++ written info wc))
      × All (λ w. has_writer w d ≡ false) wc

  pub add_writers-AddsWriters :
      (ps : List String) (d : List (String × Info)) → Own info ps d → AddsWriters ps d
  unfolding add_writers
  add_writers-AddsWriters [] d own = ([], ap (λ l. ([], l)) (sym (append-nil d)), tt)
  add_writers-AddsWriters (p ∷ ps) d own =
      let (here, rest) = Own-rest p ps d own in
      let (wc, e, fresh) = add_writers-AddsWriters ps d rest in
      let (wc', e', fresh') =
        add_writers-AddsWriters ps (d ++ (p, info) ∷ []) (Own-append ps d p rest) in
      elim (Bool-cases (has_writer p d)) [
        | inl there ↦ (wc, rw (add_writer-Own p d here, there, e) refl, fresh)
        | inr new ↦ (
          p ∷ wc',
          rw (add_writer-Own p d here, new, e', append_assoc d ((p, info) ∷ []) (written info wc'))
              refl,
          (
            new,
            All-mono (λ w. has_writer w (d ++ (p, info) ∷ []) ≡ false) wc'
                (λ w k. has_writer-append w d p k) fresh',
          ),
        )
      ]

  delete_writer-entry :
      (p : String) (d rest : List (String × Info))
      → has_writer p d ≡ false
      → delete_writer info p (d ++ (p, info) ∷ rest) ≡ some (d ++ rest)
  unfolding delete_writer has_writer
  delete_writer-entry p [] rest h = ground arith
  delete_writer-entry p ((k, i) ∷ d) rest h = ground (arith, delete_writer-entry p d rest)

  -- The added paths are released, and the rest stays.
  pub release_written :
      (wc : List String) (d : List (String × Info)) (lock : Lock)
      → or_empty lock.write ≡ d ++ written info wc
      → All (λ w. has_writer w d ≡ false) wc
      → (lock' : Lock) × (release_write info wc lock ≡ return lock')
        × (or_empty lock'.write ≡ d)
        × (lock'.read ≡ lock.read)
  unfolding release_write delete_write
  release_written [] d lock e fresh = (lock, refl, e ∙ append-nil d, refl)
  release_written (w ∷ wc) d lock e fresh =
      let there =
        or_empty_lem lock.write (d ++ written info (w ∷ wc)) e
          (append_full d (w, info) (written info wc)) in
      let gone = delete_writer-entry w d (written info wc) fresh.0 in
      let (lock', r, wr, rd) =
        release_written wc d (record lock { write = unless_empty (d ++ written info wc) })
          (or_empty-unless_empty (d ++ written info wc)) fresh.1 in
      (lock', rw (there, gone, r) refl, wr, rd)

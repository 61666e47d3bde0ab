-- ===== src/Repo/Reproduce/Skips.antt =====
-- The stages that the loop of dvc/repo/reproduce.py skips.
use mathlib.Core.List.{append-nil, append_assoc}
use dvc.Base.{
  ◌≡◌, refl, sym, ap, ◌∙◌, Bool, true, false, ◌⊎◌, inl, inr, Option, List, [], subst, ◌∷◌, ◌++◌, Eq,
  contains, contains-append, Result, return, raise, Exec, Bool-cases, arith,
}
use dvc.Repo.Reproduce.{
  OnError, DiGraph, ReproductionError, Progress, handle_error, after_call, loop,
}
use dvc.Repo.Reproduce.Schedule.{IsGraph, Depends, Depends-handle_error}
use dvc.Repo.Reproduce.Trace.{logged, call, LoopOutcome, loop_skipped, loop_called, loop_raised}

module _ {S E W : Type 0} ⦃eq : Eq S⦄ (graph : Option (DiGraph S)) (force_downstream : Bool)
    (f : S → List S → Bool → Exec E W (Option S)) where
  -- Whatever a turn does, what is to be skipped stays so.
  after_call-to_skip :
      (on_error : OnError) (stage : S) (p : Progress S) (r : Result E (Option S))
      → ((p' : Progress S) × (after_call graph force_downstream on_error stage p r ≡ return p')
          × ((s : S) → contains p.to_skip s ≡ true → contains p'.to_skip s ≡ true))
        ⊎ ((exc : ReproductionError S E) × (after_call graph force_downstream on_error stage p r
              ≡ raise exc))
  unfolding after_call
  after_call-to_skip on_error stage p (return ret) = inl (_, refl, λ s h. h)
  after_call-to_skip OnError.fail stage p (raise exc) = inr (_, refl)
  after_call-to_skip OnError.keep_going stage p (raise exc) = inl (
    _,
    refl,
    λ s h.
        ground (arith, contains-append p.to_skip (handle_error graph OnError.keep_going stage) s),
  )
  after_call-to_skip OnError.ignore stage p (raise exc) = inl (
    _,
    refl,
    λ s h. ground (arith, contains-append p.to_skip (handle_error graph OnError.ignore stage) s),
  )

  -- The runs that were added hold no stage that was to be skipped.
  abbrev Spares : Progress S → List S → LoopOutcome S E W → Type 0
  Spares p ran out =
      (new : List S) × (out.1.1 ≡ ran ++ new)
      × ((s : S) → contains p.to_skip s ≡ true → contains new s ≡ false)

  loop-Spares :
      (on_error : OnError) (stages : List S) (p : Progress S) (w : W) (ran : List S)
      → Spares p ran (loop graph force_downstream on_error (logged f) stages p (w, ran))
  unfolding loop
  loop-Spares on_error [] p w ran = ([], sym (append-nil ran), λ s h. refl)
  loop-Spares on_error (stage ∷ stages) p w ran = elim (Bool-cases (contains p.to_skip stage)) [
    | inl e ↦
        subst (Spares p ran)
          (sym (loop_skipped graph force_downstream on_error f stage stages p (w, ran) e))
          (loop-Spares on_error stages p w ran)
    | inr e ↦ elim (after_call-to_skip on_error stage p (next stage p w).0) [
      | inl (p1, c, grow) ↦
          (let (new, t, away) =
              loop-Spares on_error stages p1 (next stage p w).1 (ran ++ stage ∷ []) in
            subst (Spares p ran)
              (sym (loop_called graph force_downstream on_error f stage stages p w ran e c))
              (
                stage ∷ new,
                t ∙ append_assoc ran (stage ∷ []) new,
                (λ s h. ground (arith, away s, grow s)),
              ))
      | inr (exc, c) ↦
          subst (Spares p ran)
            (sym (loop_raised graph force_downstream on_error f stage stages p w ran e c))
            (stage ∷ [], refl, λ s h. ground arith)
    ]
  ]
    where
      next : S → Progress S → W → Result E (Option S) × W
      next = call graph force_downstream on_error f

  after_call_failed :
      (stage : S) (p : Progress S) (exc : E)
      → after_call graph force_downstream OnError.keep_going stage p (raise exc)
        ≡ return (record p {
          failed = p.failed ++ stage ∷ [];
          to_skip = p.to_skip ++ handle_error graph OnError.keep_going stage;
        })
  unfolding after_call
  after_call_failed stage p exc = refl

  -- With `on_error="keep-going"`, where the search of networkx finds just what reaches a stage by edges,
  -- and a graph without nodes has no edges: if a stage is run and raises, no other stage that depends on it, directly or through others, runs in the rest of the plan.
  pub loop_failed :
      (stage : S) (stages : List S) (p : Progress S) (w : W) (ran : List S) (exc : E) (s : S)
      → IsGraph graph
      → contains p.to_skip stage ≡ false
      → (call graph force_downstream OnError.keep_going f stage p w).0 ≡ raise exc
      → Depends graph s stage
      → let out =
          loop graph force_downstream OnError.keep_going (logged f) (stage ∷ stages) p (w, ran) in
        (new : List S) × (out.1.1 ≡ (ran ++ stage ∷ []) ++ new) × (contains new s ≡ false)
  loop_failed stage stages p w ran exc s known e c d =
      let out = call graph force_downstream OnError.keep_going f stage p w in
      let skipped = handle_error graph OnError.keep_going stage in
      let p1 = record p { failed = p.failed ++ stage ∷ []; to_skip = p.to_skip ++ skipped } in
      let (new, t, away) = loop-Spares OnError.keep_going stages p1 out.1 (ran ++ stage ∷ []) in
      let here = Depends-handle_error graph known s stage d in
      rw
        (loop_called graph force_downstream OnError.keep_going f stage stages p w ran e (
          ap (after_call graph force_downstream OnError.keep_going stage p) c
          ∙ after_call_failed stage p exc))
        (new, t, away s (ground (arith, contains-append p.to_skip skipped s)))

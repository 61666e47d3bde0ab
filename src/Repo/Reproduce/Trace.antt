-- ===== src/Repo/Reproduce/Trace.antt =====
-- The calls that the loop of dvc/repo/reproduce.py makes, turn by turn.
use dvc.Base.{
  ◌≡◌, refl, Bool, true, false, Option, List, [], ◌∷◌, ◌++◌, Eq, contains, Result, return, raise,
  Exec,
}
use dvc.Repo.Reproduce.{
  OnError, DiGraph, ReproductionError, Progress, after_call, step, loop, upstream_nodes,
}
use dvc.Repo.Reproduce.Schedule.{Calls, recorded}

-- `f`, with the stages that it was called for in the order of the calls.
abbrev pub logged :
    {S E W : Type 0}
    → (S → List S → Bool → Exec E W (Option S))
    → S
    → List S
    → Bool
    → Exec E (W × List S) (Option S)
logged f stage upstream force (w, ran) =
    let (r, w') = f stage upstream force w in (r, (w', ran ++ stage ∷ []))

module _ {S E W : Type 0} ⦃eq : Eq S⦄ (graph : Option (DiGraph S)) (force_downstream : Bool)
    (on_error : OnError) (f : S → List S → Bool → Exec E W (Option S)) where
  abbrev pub call : S → Progress S → W → Result E (Option S) × W
  call stage p w = f stage (upstream_nodes graph stage) (p.force_state stage) w

  pub loop_skipped :
      (stage : S) (stages : List S) (p : Progress S) (s : W × List S)
      → contains p.to_skip stage ≡ true
      → loop graph force_downstream on_error (logged f) (stage ∷ stages) p s
        ≡ loop graph force_downstream on_error (logged f) stages p s
  unfolding loop step
  loop_skipped stage stages p s e = rw e refl

  pub loop_called :
      (stage : S) (stages : List S) (p : Progress S) (w : W) (ran : List S) {p' : Progress S}
      → contains p.to_skip stage ≡ false
      → after_call graph force_downstream on_error stage p (call stage p w).0 ≡ return p'
      → loop graph force_downstream on_error (logged f) (stage ∷ stages) p (w, ran)
        ≡ loop graph force_downstream on_error
            (logged f)
            stages
            p'
            ((call stage p w).1, ran ++ stage ∷ [])
  unfolding loop step
  loop_called stage stages p w ran e a = rw (e, a) refl

  pub loop_raised :
      (stage : S) (stages : List S) (p : Progress S) (w : W) (ran : List S)
      {exc : ReproductionError S E}
      → contains p.to_skip stage ≡ false
      → after_call graph force_downstream on_error stage p (call stage p w).0 ≡ raise exc
      → loop graph force_downstream on_error (logged f) (stage ∷ stages) p (w, ran)
        ≡ (raise exc, ((call stage p w).1, ran ++ stage ∷ []))
  unfolding loop step
  loop_raised stage stages p w ran e a = rw (e, a) refl

-- What the loop ends with: its variables or an exception, beside the state and the calls made.
abbrev pub LoopOutcome : (S E W : Type 0) → Type 0
LoopOutcome S E W = Result (ReproductionError S E) (Progress S) × (W × List S)

module _ {S E W : Type 0} ⦃eq : Eq S⦄ (graph : Option (DiGraph S)) (force_downstream : Bool)
    (on_error : OnError) (f : S → List S → Bool → Exec E W (Option S)) where
  pub recorded_skipped :
      (stage : S) (stages : List S) (p : Progress S) (s : W × Calls S E)
      → contains p.to_skip stage ≡ true
      → loop graph force_downstream on_error (recorded f) (stage ∷ stages) p s
        ≡ loop graph force_downstream on_error (recorded f) stages p s
  unfolding loop step
  recorded_skipped stage stages p s e = rw e refl

  pub recorded_called :
      (stage : S) (stages : List S) (p : Progress S) (w : W) (calls : Calls S E) {p' : Progress S}
      → contains p.to_skip stage ≡ false
      → after_call graph force_downstream on_error stage p
          (call graph force_downstream on_error f stage p w).0
        ≡ return p'
      → loop graph force_downstream on_error (recorded f) (stage ∷ stages) p (w, calls)
        ≡ loop graph force_downstream on_error (recorded f) stages p' (
          (call graph force_downstream on_error f stage p w).1,
          calls ++ (stage, (call graph force_downstream on_error f stage p w).0) ∷ [],
        )
  unfolding loop step
  recorded_called stage stages p w calls e a = rw (e, a) refl

  pub recorded_raised :
      (stage : S) (stages : List S) (p : Progress S) (w : W) (calls : Calls S E)
      {exc : ReproductionError S E}
      → contains p.to_skip stage ≡ false
      → after_call graph force_downstream on_error stage p
          (call graph force_downstream on_error f stage p w).0
        ≡ raise exc
      → loop graph force_downstream on_error (recorded f) (stage ∷ stages) p (w, calls) ≡ (
        raise exc,
        (
          (call graph force_downstream on_error f stage p w).1,
          calls ++ (stage, (call graph force_downstream on_error f stage p w).0) ∷ [],
        ),
      )
  unfolding loop step
  recorded_raised stage stages p w calls e a = rw (e, a) refl

-- The same beside the answers of the calls.
abbrev pub CallsOutcome : (S E W : Type 0) → Type 0
CallsOutcome S E W = Result (ReproductionError S E) (Progress S) × (W × Calls S E)

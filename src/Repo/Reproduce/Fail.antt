-- ===== src/Repo/Reproduce/Fail.antt =====
-- The loop of dvc/repo/reproduce.py with `on_error="fail"`.
use mathlib.Core.List.{append-nil, append_assoc}
use dvc.Base.{
  ◌≡◌, refl, sym, ap, ◌∙◌, Bool, ◌⊎◌, inl, inr, Option, none, some, List, [], subst, ◌∷◌, ◌++◌, Eq,
  Result, return, raise, Exec,
}
use dvc.Repo.Reproduce.{
  OnError, DiGraph, ReproductionError, Progress, after_call, appended, reported, loop, reproduce,
  start,
}
use dvc.Repo.Reproduce.Schedule.{Calls, recorded, answered_in}
use dvc.Repo.Reproduce.Trace.{call, CallsOutcome, recorded_called, recorded_raised}

-- One call for each of the stages, in their order, and none of them raised.
pub data Answered {S E : Type 0} : List S → Calls S E → Type 0 where
  none_called : Answered [] []
  answered :
      {s : S} {ret : Option S} {stages : List S} {calls : Calls S E}
      → Answered stages calls
      → Answered (s ∷ stages) ((s, return ret) ∷ calls)

-- The calls for the first stages of a plan answered, and the next call raised and is the last.
abbrev pub Stopped :
    {S E A : Type 0} → List S → Calls S E → Result (ReproductionError S E) A → Type 0
Stopped {S} {E} stages calls answer =
    (before : List S) × (stage : S) × (after : List S) × (exc : E) × (calls' : Calls S E) × (stages
      ≡ before ++ stage ∷ after)
    × (calls ≡ calls' ++ (stage, raise exc) ∷ [])
    × Answered before calls'
    × (answer ≡ raise (record { cause = some exc; stages = stage ∷ [] }))

module _ {S E W : Type 0} ⦃eq : Eq S⦄ (graph : Option (DiGraph S)) (force_downstream : Bool)
    (f : S → List S → Bool → Exec E W (Option S)) where
  -- What a call that answers leaves, and what one that raises ends with.
  abbrev Turn : S → Progress S → Result E (Option S) → Type 0
  Turn stage p r =
      ((p' : Progress S) × (ret : Option S) × (r ≡ return ret)
        × (after_call graph force_downstream OnError.fail stage p r ≡ return p')
        × (p'.to_skip ≡ [])
        × (p'.failed ≡ [])
        × (p'.result ≡ p.result ++ answered_in {E = E} ((stage, return ret) ∷ [])))
      ⊎ ((exc : E) × (r ≡ raise exc)
          × (after_call graph force_downstream OnError.fail stage p r
              ≡ raise (record { cause = some exc; stages = stage ∷ [] })))

  after_call-fail :
      (stage : S) (p : Progress S) (r : Result E (Option S))
      → p.to_skip ≡ []
      → p.failed ≡ []
      → Turn stage p r
  unfolding after_call appended
  after_call-fail stage p (return none) e e' =
      inl (_, none, refl, refl, e, e', sym (append-nil p.result))
  after_call-fail stage p (return (some ret)) e e' = inl (_, some ret, refl, refl, e, e', refl)
  after_call-fail stage p (raise exc) e e' = inr (exc, refl, refl)

  -- The calls that are added to those `before`, and what they come to.
  abbrev Ends : List S → Progress S → Calls S E → CallsOutcome S E W → Type 0
  Ends stages p before out =
      (calls : Calls S E) × (out.1.1 ≡ before ++ calls)
      × (((p' : Progress S) × (out.0 ≡ return p')
            × (p'.failed ≡ [])
            × Answered stages calls
            × (p'.result ≡ p.result ++ answered_in calls))
          ⊎ Stopped stages calls out.0)

  answered_in-cons :
      (stage : S) (ret : Option S) (calls : Calls S E)
      → answered_in {E = E} ((stage, return ret) ∷ []) ++ answered_in calls
        ≡ answered_in ((stage, return ret) ∷ calls)
  answered_in-cons stage none calls = refl
  answered_in-cons stage (some s) calls = refl

  Ends-later :
      (stage : S) (ret : Option S) (stages : List S) (p p1 : Progress S) (before : Calls S E)
      (out : CallsOutcome S E W)
      → p1.result ≡ p.result ++ answered_in {E = E} ((stage, return ret) ∷ [])
      → Ends stages p1 (before ++ (stage, return ret) ∷ []) out
      → Ends (stage ∷ stages) p before out
  Ends-later stage ret stages p p1 before out y (calls, t, inl (p', e, none_failed, a, x)) = (
    (stage, return ret) ∷ calls,
    t ∙ append_assoc before ((stage, return ret) ∷ []) calls,
    inl (
      p',
      e,
      none_failed,
      answered a,
      x
          ∙ (ap (λ l. l ++ answered_in calls) y
              ∙ (append_assoc p.result (answered_in {E = E} ((stage, return ret) ∷ []))
                    (answered_in calls)
                  ∙ ap (λ l. p.result ++ l) (answered_in-cons stage ret calls))),
    ),
  )
  Ends-later stage ret stages p p1 before out y
        (calls, t, inr (first, s, after, exc, calls', split, c, a, e)) =
      (
        (stage, return ret) ∷ calls,
        t ∙ append_assoc before ((stage, return ret) ∷ []) calls,
        inr (
          stage ∷ first,
          s,
          after,
          exc,
          (stage, return ret) ∷ calls',
          ap (λ l. stage ∷ l) split,
          ap (λ l. (stage, return ret) ∷ l) c,
          answered a,
          e,
        ),
      )

  loop-Ends :
      (stages : List S) (p : Progress S) (w : W) (before : Calls S E)
      → p.to_skip ≡ []
      → p.failed ≡ []
      → Ends stages p before
          (loop graph force_downstream OnError.fail (recorded f) stages p (w, before))
  unfolding loop
  loop-Ends [] p w before e e' =
      ([], sym (append-nil before), inl (p, refl, e', none_called, sym (append-nil p.result)))
  loop-Ends (stage ∷ stages) p w before e e' =
      elim (after_call-fail stage p (next stage p w).0 e e') [
        | inl (p1, ret, q, c, e1, e2, y) ↦
            subst (Ends (stage ∷ stages) p before)
              (sym (
                recorded_called graph force_downstream OnError.fail f stage stages p w before
                  (rw e refl) c
                ∙ ap
                    (λ r.
                      loop graph force_downstream OnError.fail (recorded f) stages p1
                        ((next stage p w).1, before ++ (stage, r) ∷ []))
                    q))
              (Ends-later stage ret stages p p1 before
                (loop graph force_downstream OnError.fail (recorded f) stages p1
                  ((next stage p w).1, before ++ (stage, return ret) ∷ []))
                y
                (loop-Ends stages p1 (next stage p w).1 (before ++ (stage, return ret) ∷ []) e1 e2))
        | inr (exc, q, c) ↦
            subst (Ends (stage ∷ stages) p before)
              (sym (
                recorded_raised graph force_downstream OnError.fail f stage stages p w before
                  (rw e refl) c))
              (
                (stage, (next stage p w).0) ∷ [],
                refl,
                inr (
                  [],
                  stage,
                  stages,
                  exc,
                  [],
                  refl,
                  ap (λ r. (stage, r) ∷ []) q,
                  none_called,
                  refl,
                ),
              )
      ]
    where
      next : S → Progress S → W → Result E (Option S) × W
      next = call graph force_downstream OnError.fail f

  -- With `on_error="fail"`, either every stage of the plan is called for, in its order, none of the
  -- calls raises, and what they answered is returned, or a call raises, which is the last one: those
  -- before it are for the stages before it in the plan and did not raise, and the exception has that
  -- of the call as its cause and names the stage of the call alone.
  pub reproduce-fail :
      (force : Bool) (stages : List S) (w : W)
      → let out = reproduce graph force_downstream OnError.fail (recorded f) force stages (w, []) in
        (Answered stages out.1.1 × (out.0 ≡ return (answered_in out.1.1)))
        ⊎ Stopped stages out.1.1 out.0
  unfolding reproduce start reported
  reproduce-fail force stages w =
      let (calls, t, ends) = loop-Ends stages (start force) w [] refl refl in
      elim ends [
        | inl (p, e, none_failed, a, x) ↦ inl (rw (e, t) a, rw (e, t, none_failed, x) refl)
        | inr (before, s, after, exc, calls', split, c, a, e) ↦
            inr (before, s, after, exc, calls', split, rw (e, t) c, a, rw e refl)
      ]

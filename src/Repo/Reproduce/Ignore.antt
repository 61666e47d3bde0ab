-- ===== src/Repo/Reproduce/Ignore.antt =====
-- The loop of dvc/repo/reproduce.py with `on_error="ignore"`.
use mathlib.Core.List.{append-nil, append_assoc}
use dvc.Base.{
  ◌≡◌, refl, sym, ◌∙◌, Bool, Option, List, [], ◌∷◌, ◌++◌, Eq, Result, return, raise, Exec,
}
use dvc.Repo.Reproduce.{OnError, DiGraph, Progress, after_call, loop, reproduce, start}
use dvc.Repo.Reproduce.Trace.{logged, call, loop_called}

module _ {S E W : Type 0} ⦃eq : Eq S⦄ (graph : Option (DiGraph S)) (force_downstream : Bool)
    (f : S → List S → Bool → Exec E W (Option S)) where
  after_call-ignore :
      (stage : S) (p : Progress S) (r : Result E (Option S))
      → p.to_skip ≡ []
      → (p' : Progress S) × (after_call graph force_downstream OnError.ignore stage p r ≡ return p')
        × (p'.to_skip ≡ [])
  unfolding after_call
  after_call-ignore stage p (return ret) e = (_, refl, e)
  after_call-ignore stage p (raise exc) e = (_, refl, append-nil p.to_skip ∙ e)

  loop-ignore :
      (stages : List S) (p : Progress S) (w : W) (ran : List S)
      → p.to_skip ≡ []
      → let out = loop graph force_downstream OnError.ignore (logged f) stages p (w, ran) in
        (p' : Progress S) × (out.0 ≡ return p') × (out.1.1 ≡ ran ++ stages)
  unfolding loop
  loop-ignore [] p w ran e = (p, refl, sym (append-nil ran))
  loop-ignore (stage ∷ stages) p w ran e =
      let (p', a, e') =
        after_call-ignore stage p (call graph force_downstream OnError.ignore f stage p w).0 e in
      let (q, r, t) =
        loop-ignore stages p' (call graph force_downstream OnError.ignore f stage p w).1
          (ran ++ stage ∷ []) e' in
      rw (loop_called graph force_downstream OnError.ignore f stage stages p w ran (rw e refl) a)
        (q, r, t ∙ append_assoc ran (stage ∷ []) stages)

  -- With `on_error="ignore"` the plan is worked through whatever the stages do: every stage runs
  -- once, in the order of the plan, and a result is returned.
  pub reproduce-ignore :
      (force : Bool) (stages : List S) (w : W)
      → let out = reproduce graph force_downstream OnError.ignore (logged f) force stages (w, []) in
        (result : List S) × (out.0 ≡ return result) × (out.1.1 ≡ stages)
  unfolding reproduce start
  reproduce-ignore force stages w =
      let (p, e, t) = loop-ignore stages (start force) w [] refl in rw e (p.result, refl, t)

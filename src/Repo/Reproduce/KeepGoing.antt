-- ===== src/Repo/Reproduce/KeepGoing.antt =====
-- The loop of dvc/repo/reproduce.py with `on_error="keep-going"`.
use mathlib.Core.List.{cons≢nil, append-nil, append_assoc}
use dvc.Base.{
  ◌≡◌, refl, sym, ap, ◌∙◌, Bool, true, false, ◌||◌, ◌⊎◌, inl, inr, Option, none, some, List, [],
  ◌≢◌, subst, ◌∷◌, ◌++◌, Eq, ◌==◌, contains, contains-append, any, Result, return, raise, Exec,
  Bool-cases, arith,
}
use dvc.Repo.Reproduce.{
  OnError, DiGraph, ReproductionError, Progress, handle_error, after_call, appended, reported, loop,
  reproduce, start,
}
use dvc.Repo.Reproduce.Schedule.{
  Calls, recorded, raised_in, answered_in, IsGraph, Depends, Blamed, Schedule, finished, passed,
  returned, failed_at, handle_error-Depends, Depends-handle_error,
}
use dvc.Repo.Reproduce.Trace.{call, CallsOutcome, recorded_skipped, recorded_called}

any-append :
    {A : Type 0} (p : A → Bool) (xs ys : List A) → any p (xs ++ ys) ≡ (any p xs || any p ys)
any-append p [] ys = refl
any-append p (x ∷ xs) ys = ground (arith, any-append p xs ys)

-- A stage is to be skipped for one of the failures.
abbrev skipped : {S : Type 0} ⦃eq : Eq S⦄ → Option (DiGraph S) → List S → S → Bool
skipped graph failed s = any (λ t. contains (handle_error graph OnError.keep_going t) s) failed

-- The answers if no call raised, and else the exception that names the stages that did.
abbrev pub Names : {S E : Type 0} → Calls S E → Result (ReproductionError S E) (List S) → Type 0
Names calls answer =
    ((raised_in calls ≡ []) × (answer ≡ return (answered_in calls)))
    ⊎ ((raised_in calls ≢ [])
        × (answer ≡ raise (record { cause = none; stages = raised_in calls })))

module _ {S : Type 0} ⦃eq : Eq S⦄ (graph : Option (DiGraph S)) (known : IsGraph graph) where
  skipped-Blamed : (failed : List S) (s : S) → skipped graph failed s ≡ true → Blamed graph failed s
  skipped-Blamed [] s h = cc
  skipped-Blamed (t ∷ failed) s h =
      elim (Bool-cases (contains (handle_error graph OnError.keep_going t) s)) [
        | inl e ↦ (t, ground arith, handle_error-Depends graph known s t e)
        | inr e ↦
            (let (u, there, d) = skipped-Blamed failed s (ground arith) in (u, ground arith, d))
      ]

  Blamed-skipped :
      (failed : List S) (s t : S)
      → contains failed t ≡ true
      → Depends graph s t
      → skipped graph failed s ≡ true
  Blamed-skipped [] s t c d = cc
  Blamed-skipped (u ∷ failed) s t c d = elim (Bool-cases (t == u)) [
    | inl e ↦
        (let q : t ≡ u = ground arith in
          let here = Depends-handle_error graph known s t d in
          ground (
            arith,
            subst (λ v. contains (handle_error graph OnError.keep_going v) s ≡ true) q here,
          ))
    | inr e ↦ ground (arith, Blamed-skipped failed s t (ground arith) d)
  ]

  not-Blamed :
      (failed : List S) (s : S) → skipped graph failed s ≡ false → ¬ (Blamed graph failed s)
  not-Blamed failed s h (t, c, d) =
      let yes : skipped graph failed s ≡ true = Blamed-skipped failed s t c d in
      let bad : false ≡ true = sym h ∙ yes in cc

module _ {S E W : Type 0} ⦃eq : Eq S⦄ (graph : Option (DiGraph S)) (known : IsGraph graph)
    (force_downstream : Bool) (f : S → List S → Bool → Exec E W (Option S)) where
  -- What is to be skipped is so for the failures.
  abbrev Skips : Progress S → Type 0
  Skips p = (s : S) → contains p.to_skip s ≡ skipped graph p.failed s

  -- What a call adds to the failures and to the result.
  abbrev Adds : S → Result E (Option S) → Progress S → Progress S → Type 0
  Adds stage r p p' =
      (p'.failed ≡ p.failed ++ raised_in ((stage, r) ∷ []))
      × (p'.result ≡ p.result ++ answered_in ((stage, r) ∷ []))

  after_call-Skips :
      (stage : S) (p : Progress S) (r : Result E (Option S))
      → Skips p
      → (p' : Progress S) × (after_call graph force_downstream OnError.keep_going stage p r
          ≡ return p')
        × Skips p'
        × Adds stage r p p'
  unfolding after_call appended
  after_call-Skips stage p (return none) b =
      (_, refl, b, (sym (append-nil p.failed), sym (append-nil p.result)))
  after_call-Skips stage p (return (some ret)) b = (_, refl, b, (sym (append-nil p.failed), refl))
  after_call-Skips stage p (raise exc) b = (
    _,
    refl,
    (λ s. ground (
      arith,
      any-append (λ t. contains (handle_error graph OnError.keep_going t) s) p.failed (stage ∷ []),
      b s,
      contains-append p.to_skip (handle_error graph OnError.keep_going stage) s,
    )),
    (refl, sym (append-nil p.result)),
  )

  -- The loop came through, and its calls are those of the schedule.
  abbrev CameThrough : List S → Progress S → Calls S E → CallsOutcome S E W → Type 0
  CameThrough stages p before out =
      (p' : Progress S) × (calls : Calls S E) × (out.0 ≡ return p')
      × (out.1.1 ≡ before ++ calls)
      × Schedule graph p.failed stages calls
      × (p'.failed ≡ p.failed ++ raised_in calls)
      × (p'.result ≡ p.result ++ answered_in calls)

  scheduled :
      (stage : S) (stages failed : List S) (r : Result E (Option S)) (calls : Calls S E)
      → ¬ (Blamed graph failed stage)
      → Schedule graph (failed ++ raised_in ((stage, r) ∷ [])) stages calls
      → Schedule graph failed (stage ∷ stages) ((stage, r) ∷ calls)
  scheduled stage stages failed (return ret) calls free s =
      returned free (subst (λ l. Schedule graph l stages calls) (append-nil failed) s)
  scheduled stage stages failed (raise exc) calls free s = failed_at free s

  raised_in-cons :
      (stage : S) (r : Result E (Option S)) (calls : Calls S E)
      → raised_in ((stage, r) ∷ []) ++ raised_in calls ≡ raised_in ((stage, r) ∷ calls)
  raised_in-cons stage (return ret) calls = refl
  raised_in-cons stage (raise exc) calls = refl

  answered_in-cons :
      (stage : S) (r : Result E (Option S)) (calls : Calls S E)
      → answered_in ((stage, r) ∷ []) ++ answered_in calls ≡ answered_in ((stage, r) ∷ calls)
  answered_in-cons stage (return none) calls = refl
  answered_in-cons stage (return (some ret)) calls = refl
  answered_in-cons stage (raise exc) calls = refl

  loop-CameThrough :
      (stages : List S) (p : Progress S) (w : W) (before : Calls S E)
      → Skips p
      → CameThrough stages p before
          (loop graph force_downstream OnError.keep_going (recorded f) stages p (w, before))
  unfolding loop
  loop-CameThrough [] p w before b = (
    p,
    [],
    refl,
    sym (append-nil before),
    finished,
    sym (append-nil p.failed),
    sym (append-nil p.result),
  )
  loop-CameThrough (stage ∷ stages) p w before b = elim (Bool-cases (contains p.to_skip stage)) [
    | inl e ↦
        (let (p', calls, r, t, s, x, y) = loop-CameThrough stages p w before b in
          subst (CameThrough (stage ∷ stages) p before)
            (sym (
              recorded_skipped graph force_downstream OnError.keep_going f stage stages p
                (w, before) e))
            (
              p',
              calls,
              r,
              t,
              passed (skipped-Blamed graph known p.failed stage (sym (b stage) ∙ e)) s,
              x,
              y,
            ))
    | inr e ↦
        (let answer = (next stage p w).0 in
          let (p1, c, b1, (x1, y1)) = after_call-Skips stage p answer b in
          let (p', calls, r, t, s, x, y) =
            loop-CameThrough stages p1 (next stage p w).1 (before ++ (stage, answer) ∷ []) b1 in
          subst (CameThrough (stage ∷ stages) p before)
            (sym (
              recorded_called graph force_downstream OnError.keep_going f stage stages p w before e
                c))
            (
              p',
              (stage, answer) ∷ calls,
              r,
              t ∙ append_assoc before ((stage, answer) ∷ []) calls,
              scheduled stage stages p.failed answer calls
                  (not-Blamed graph known p.failed stage (sym (b stage) ∙ e))
                  (subst (λ l. Schedule graph l stages calls) x1 s),
              x
                  ∙ (ap (λ l. l ++ raised_in calls) x1
                      ∙ (append_assoc p.failed (raised_in ((stage, answer) ∷ [])) (raised_in calls)
                          ∙ ap (λ l. p.failed ++ l) (raised_in-cons stage answer calls))),
              y
                  ∙ (ap (λ l. l ++ answered_in calls) y1
                      ∙ (append_assoc p.result (answered_in ((stage, answer) ∷ []))
                            (answered_in calls)
                          ∙ ap (λ l. p.result ++ l) (answered_in-cons stage answer calls))),
            ))
  ]
    where
      next : S → Progress S → W → Result E (Option S) × W
      next = call graph force_downstream OnError.keep_going f

  reported-Names :
      (p : Progress S) (calls : Calls S E)
      → p.failed ≡ raised_in calls
      → p.result ≡ answered_in calls
      → Names calls (reported OnError.keep_going p)
  unfolding reported
  reported-Names p calls x y = go p.failed refl
    where
      go :
          (failed : List S)
          → p.failed ≡ failed
          → Names {E = E} calls (reported OnError.keep_going p)
      go [] e = inl (sym x ∙ e, rw (e, y) refl)
      go (s ∷ rest) e = inr (subst (λ l. l ≢ []) (sym e ∙ x) cons≢nil, rw (e, sym x ∙ e) refl)

-- With `on_error="keep-going"`, where the search of networkx finds just what reaches a stage by edges,
-- and a graph without nodes has no edges: the loop calls for the stages of the plan in their order, and
-- passes over a stage just where it needs one whose call has raised before. If no call raised, what the calls answered is returned; else the exception names the
-- stages whose calls raised.
pub reproduce-keep_going :
    {S E W : Type 0} ⦃eq : Eq S⦄ (graph : Option (DiGraph S)) (force_downstream : Bool)
    (f : S → List S → Bool → Exec E W (Option S)) (force : Bool) (stages : List S) (w : W)
    → IsGraph graph
    → let out =
        reproduce graph force_downstream OnError.keep_going (recorded f) force stages (w, []) in
      Schedule graph [] stages out.1.1 × Names out.1.1 out.0
unfolding reproduce start
reproduce-keep_going graph force_downstream f force stages w known =
    let (p, calls, e, t, s, x, y) =
      loop-CameThrough graph known force_downstream f stages (start force) w [] (λ s. refl) in
    rw (e, t) (s, reported-Names graph known force_downstream f p calls x y)

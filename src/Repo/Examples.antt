-- ===== src/Repo/Examples.antt =====
-- Tests of the reproduction loop on a pipeline of four stages, and the theorems on it.
use dvc.Base.{
  ℕ, ◌+◌, String, ◌≡◌, refl, Bool, true, false, ◌⊎◌, Option, none, some, List, [], ◌∷◌, ◌==◌,
  nat_eq, contains, Bool-cases, inl, inr, arith, Result, return, raise, Exec, if◌then◌else◌,
}
use mathlib.Core.List.{cons≢nil}
use dvc.Repo.Reproduce.{OnError, DiGraph, ReproductionError, loop, reproduce, start, step}
use dvc.Repo.Reproduce.Schedule.{recorded, answered_in, Needs, edge, chain, IsSearch, Schedule}
use dvc.Repo.Reproduce.Trace.{logged}
use dvc.Repo.Reproduce.Ignore.{reproduce-ignore}
use dvc.Repo.Reproduce.KeepGoing.{Names, reproduce-keep_going}
use dvc.Repo.Reproduce.Skips.{loop_failed}
use dvc.Repo.Reproduce.Fail.{Answered, Stopped, reproduce-fail}

-- 3 depends on 2, and 2 on 1; 4 is on its own.
abbrev pipeline : DiGraph ℕ
pipeline = record {
  nodes = 1 ∷ 2 ∷ 3 ∷ 4 ∷ [];
  successors = λ s. if s == 2 then 1 ∷ [] else if s == 3 then 2 ∷ [] else [];
  predecessors = λ s. if s == 1 then 2 ∷ [] else if s == 2 then 3 ∷ [] else [];
  reachable_in_reverse =
      λ s. if s == 1 then 3 ∷ 2 ∷ 1 ∷ [] else if s == 2 then 3 ∷ 2 ∷ [] else s ∷ [];
}

-- Stage 1 raises; the others change, and are counted.
abbrev flaky : ℕ → List ℕ → Bool → Exec String ℕ (Option ℕ)
flaky s upstream force n = if s == 1 then (raise "no data", n) else (return (some s), n + 1)

abbrev plan : List ℕ
plan = 1 ∷ 2 ∷ 3 ∷ 4 ∷ []

reproduces : OnError → Result (ReproductionError ℕ String) (List ℕ) × (ℕ × List ℕ)
reproduces on_error = reproduce (some pipeline) false on_error (logged flaky) false plan (0, [])

keep_going_test :
    reproduces OnError.keep_going
    ≡ (raise (record { cause = none; stages = 1 ∷ [] }), (1, 1 ∷ 4 ∷ []))
unfolding reproduces reproduce step nat_eq
keep_going_test = refl

ignore_test : reproduces OnError.ignore ≡ (return (2 ∷ 3 ∷ 4 ∷ []), (3, plan))
unfolding reproduces reproduce step nat_eq
ignore_test = refl

fail_test :
    reproduces OnError.fail
    ≡ (raise (record { cause = some "no data"; stages = 1 ∷ [] }), (0, 1 ∷ []))
unfolding reproduces reproduce step nat_eq
fail_test = refl

reproduce-ignore_example :
    (result : List ℕ) × ((reproduce
        (some pipeline)
        false
        OnError.ignore
        (logged flaky)
        false
        plan
        (0, [])).0
      ≡ return result)
    × ((reproduce (some pipeline) false OnError.ignore (logged flaky) false plan (0, [])).1.1
        ≡ plan)
reproduce-ignore_example = reproduce-ignore (some pipeline) false flaky false plan 0

pipeline_found :
    (s t : ℕ) → contains (pipeline.reachable_in_reverse t) s ≡ true → (s ≡ t) ⊎ Needs pipeline s t
unfolding nat_eq
pipeline_found s t c = elim (Bool-cases (s == t)) [
  | inl e ↦ inl (ground (arith, e))
  | inr e ↦ elim (Bool-cases (t == 1)) [
    | inl first ↦ elim (Bool-cases (s == 2)) [
      | inl second ↦ inr (edge (ground (arith, first, second)))
      | inr other ↦
          inr (chain {u = 2} (ground (arith, first, other, e, c)) (edge (ground (arith, first))))
    ]
    | inr other ↦ inr (edge (ground (arith, other, e, c)))
  ]
]

pipeline_complete :
    (s t : ℕ) → Needs pipeline s t → contains (pipeline.reachable_in_reverse t) s ≡ true
unfolding nat_eq
pipeline_complete s t (edge c) = ground (arith, c)
pipeline_complete s t (chain {u} c rest) = ground (arith, c, pipeline_complete u t rest)

pipeline-IsSearch : IsSearch pipeline
pipeline-IsSearch = record {
  found = pipeline_found;
  complete = pipeline_complete;
  inhabited = λ s t none_there. absurd (cons≢nil none_there);
}

reproduce-keep_going_example :
    let out =
      reproduce (some pipeline) false OnError.keep_going (recorded flaky) false plan (0, []) in
    Schedule (some pipeline) [] plan out.1.1 × Names out.1.1 out.0
reproduce-keep_going_example =
    reproduce-keep_going (some pipeline) false flaky false plan 0 pipeline-IsSearch

loop_failed_example :
    let out =
      loop (some pipeline) false OnError.keep_going (logged flaky) plan (start false) (0, []) in
    (new : List ℕ) × (out.1.1 ≡ 1 ∷ new) × (contains new 3 ≡ false)
unfolding start nat_eq
loop_failed_example =
    loop_failed (some pipeline) false flaky 1 (2 ∷ 3 ∷ 4 ∷ []) (start false) 0 [] "no data" 3
      pipeline-IsSearch refl refl (omega arith, chain {u = 2} refl (edge refl))

reproduce-fail_example :
    let out = reproduce (some pipeline) false OnError.fail (recorded flaky) false plan (0, []) in
    (Answered plan out.1.1 × (out.0 ≡ return (answered_in out.1.1))) ⊎ Stopped plan out.1.1 out.0
reproduce-fail_example = reproduce-fail (some pipeline) false flaky false plan 0

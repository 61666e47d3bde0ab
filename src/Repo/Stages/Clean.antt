-- ===== src/Repo/Stages/Clean.antt =====
-- `dvc repro` in a workspace where nothing has changed (dvc/repo/reproduce.py, dvc/stage/__init__.py).
use dvc.Base.{
  ◌≡◌, refl, String, Bool, true, false, Option, none, List, [], ◌∷◌, All, string_eq, map, return,
  Exec,
}
use dvc.Stage.{Stage, StageError, Options, status}
use dvc.Stage.Changed.{reproduce-status}
use dvc.Repo.Reproduce.{
  OnError, DiGraph, start, after_call, appended, forced, truth, step, loop, reported, reproduce,
  upstream_nodes,
}
use dvc.Repo.Stages.{dumped, reproduce_stage}

-- A stage that is not frozen and reports no status.
abbrev pub IsClean : Stage → Type 0
IsClean stage = (stage.frozen ≡ false) × (status false (λ _. true) stage ≡ [])

after_call-clean :
    (graph : Option (DiGraph String)) (force_downstream : Bool) (on_error : OnError) (name : String)
    → after_call {E = StageError} graph force_downstream on_error name (start false) (return none)
      ≡ return (start false)
unfolding after_call appended forced truth start
after_call-clean graph true on_error name = refl
after_call-clean graph false on_error name = refl

reported-clean :
    (on_error : OnError) → reported {S = String} {E = StageError} on_error (start false) ≡ return []
unfolding reported start
reported-clean OnError.fail = refl
reported-clean OnError.keep_going = refl
reported-clean OnError.ignore = refl

module _ {W : Type 0} (stage_at : W → String → Stage)
    (run pull_data dump : Stage → Exec StageError W Unit) (confirm dry : Bool) (options : Options)
    (graph : Option (DiGraph String)) (force_downstream : Bool) (on_error : OnError) (w : W) where
  reproduce_stage-clean :
      (name : String) (upstream : List String)
      → IsClean (stage_at w name)
      → reproduce_stage stage_at run pull_data dump confirm dry options name upstream false w
        ≡ (return none, w)
  unfolding reproduce_stage dumped
  reproduce_stage-clean name upstream (live, silent) =
      rw
        (reproduce-status run pull_data confirm false (record options { force = false })
          (map (stage_at w) upstream) (stage_at w name) w live refl silent)
        refl

  step-clean :
      (name : String)
      → IsClean (stage_at w name)
      → step graph force_downstream on_error
          (reproduce_stage stage_at run pull_data dump confirm dry options)
          name
          (start false)
          w
        ≡ (return (start false), w)
  unfolding step start
  step-clean name h =
      rw
        (
          reproduce_stage-clean name (upstream_nodes graph name) h,
          after_call-clean graph force_downstream on_error name,
        )
        refl

  loop-clean :
      (names : List String)
      → All (λ name. IsClean (stage_at w name)) names
      → loop graph force_downstream on_error
          (reproduce_stage stage_at run pull_data dump confirm dry options)
          names
          (start false)
          w
        ≡ (return (start false), w)
  unfolding loop
  loop-clean [] h = refl
  loop-clean (name ∷ names) h = rw (step-clean name h.0) (loop-clean names h.1)

-- A reproduction without force, of stages that are not frozen and report no status, returns no stage and
-- leaves the workspace as it is: none is run, pulled or dumped, whatever the graph, the options and the
-- way to treat an error.
pub reproduce-clean :
    {W : Type 0} (stage_at : W → String → Stage)
    (run pull_data dump : Stage → Exec StageError W Unit) (confirm dry : Bool) (options : Options)
    (graph : Option (DiGraph String)) (force_downstream : Bool) (on_error : OnError)
    (names : List String) (w : W)
    → All (λ name. IsClean (stage_at w name)) names
    → reproduce graph force_downstream on_error
        (reproduce_stage stage_at run pull_data dump confirm dry options)
        false
        names
        w
      ≡ (return [], w)
unfolding reproduce
reproduce-clean stage_at run pull_data dump confirm dry options graph force_downstream on_error
      names w h =
    rw
      (
        loop-clean stage_at run pull_data dump confirm dry options graph force_downstream on_error w
            names h,
        reported-clean on_error,
      )
      refl

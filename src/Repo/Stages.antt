-- ===== src/Repo/Stages.antt =====
-- `_reproduce_stage` of dvc/repo/reproduce.py: the loop with the stages of dvc/stage/__init__.py. Stages
-- are known by their addresses, and read from the workspace.
mod Examples
pub mod Clean
use dvc.Base.{
  String, Bool, true, false, not, ◌&&◌, Option, none, some, List, map, Result, return, raise, Exec,
  if◌then◌else◌,
}
use dvc.Stage.{Stage, StageError, Options, reproduce}

module _ {W : Type 0} (stage_at : W → String → Stage)
    (run pull_data dump : Stage → Exec StageError W Unit) (confirm dry : Bool)
    (options : Options) where
  -- `if ret and not dry: stage.dump(…)`
  unfoldable pub dumped : String → Result StageError Bool → Exec StageError W (Option String)
  dumped name (raise e) w = (raise e, w)
  dumped name (return false) w = (return none, w)
  dumped name (return true) w =
      if dry
      then (return (some name), w)
      else (let (r, w') = dump (stage_at w name) w in (answered r, w'))
    where
      answered : Result StageError Unit → Result StageError (Option String)
      answered (return u) = return (some name)
      answered (raise e) = raise e

  unfoldable pub reproduce_stage : String → List String → Bool → Exec StageError W (Option String)
  unfolding reproduce dumped
  reproduce_stage name upstream force w =
      let (r, w') =
        reproduce run pull_data confirm (record options { force = force })
          (map (stage_at w) upstream) (stage_at w name) w in
      dumped name r w'

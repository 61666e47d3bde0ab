-- ===== src/Repo/Stages/Examples.antt =====
-- A pipeline of two stages: one where nothing has changed, and one with changed data.
use dvc.Base.{
  ◌≡◌, refl, String, true, false, none, some, List, [], ◌∷◌, ◌==◌, string_eq, return, raise, Exec,
  if◌then◌else◌, contains,
}
use dvc.Base.Dict
use dvc.Stage.{
  Output, Stage, StageError, checkout_error, Options, empty, truthy_text, is_callback,
  changed_stage, stops_at, first_stop, modified_upstream, changed_deps, changed_outs, changed,
  update_with, merged_status, entry_if, status_deps, status_outs, status_always_changed,
  status_stage, status_entries, status, confirmed_run, pulled_or, try_pull, after_changed,
}
use dvc.Repo.Reproduce.{
  OnError, start, loop, step, after_call, appended, forced, truth, reported, reproduce,
  upstream_nodes, downstream_nodes,
}
use dvc.Repo.Stages.{reproduce_stage, dumped}
use dvc.Repo.Stages.Clean.{reproduce-clean}

abbrev data_file : List (String × String) → Output
data_file told = record {
  name = "data";
  fs_path = "data";
  hash_info = some "h";
  status = told;
  from_repo = false;
  from_db = false;
  version_aware = false;
}

abbrev stage : String → List (String × String) → Stage
stage name told = record {
  addressing = name;
  cmd = some "make";
  deps = data_file told ∷ [];
  outs = [];
  md5 = none;
  computed = none;
  cmd_changed = some false;
  frozen = false;
  always_changed = false;
}

-- The workspace: the stages that were run or dumped; the data of `train` has changed until it is run.
abbrev stage_at : List String → String → Stage
stage_at done name =
    if name == "train"
    then (if contains done "train" then stage name [] else stage name (("data", "modified") ∷ []))
    else stage name []

abbrev run_stage : Stage → Exec StageError (List String) Unit
run_stage s done = (return tt, s.addressing ∷ done)

abbrev no_pull : Stage → Exec StageError (List String) Unit
no_pull s done = (raise checkout_error, done)

abbrev options : Options
options = record { force = false; allow_missing = false; pull = false; interactive = false }

reproduce-clean_example :
    reproduce none false OnError.fail
      (reproduce_stage stage_at run_stage no_pull run_stage true false options)
      false
      ("prepare" ∷ "train" ∷ [])
      ("train" ∷ [])
    ≡ (return [], "train" ∷ [])
unfolding status status_entries status_deps status_outs status_always_changed status_stage
    changed_stage is_callback truthy_text merged_status update_with entry_if empty string_eq
reproduce-clean_example =
    reproduce-clean stage_at run_stage no_pull run_stage true false options none false OnError.fail
      ("prepare" ∷ "train" ∷ []) ("train" ∷ []) ((refl, refl), ((refl, refl), tt))

changed_test :
    reproduce none false OnError.fail
      (reproduce_stage stage_at run_stage no_pull run_stage true false options)
      false
      ("prepare" ∷ "train" ∷ [])
      []
    ≡ (return ("train" ∷ []), "train" ∷ "train" ∷ [])
unfolding reproduce loop step start after_call appended forced truth reported upstream_nodes
    downstream_nodes reproduce_stage dumped dvc.Stage.reproduce after_changed try_pull confirmed_run
    pulled_or changed changed_stage changed_deps changed_outs first_stop stops_at modified_upstream
    is_callback truthy_text empty Dict.lookup string_eq
changed_test = refl

-- ===== src/Stage/Examples.antt =====
-- A stage with one dependency and one output.
use dvc.Base.{
  ◌≡◌, refl, String, true, false, none, some, List, [], ◌∷◌, string_eq, option_eq, nat_eq, Exec,
  return, raise,
}
use dvc.Base.Dict
use dvc.Stage.{
  Output, Stage, StageError, checkout_error, empty, truthy_text, is_callback, is_import, first_is,
  is_repo_import, is_versioned_import, changed_stage, modified_upstream, stops_at, first_stop,
  changed_deps, changed_outs, changed, update_with, merged_status, entry_if, status_deps,
  status_outs, status_always_changed, status_stage, status_entries, status, StatusEntry, Options,
  confirmed_run, pulled_or, try_pull, after_changed, reproduce,
}
use dvc.Stage.Changed.{changed-status, reproduce-status}

abbrev output : String → List (String × String) → Output
output name told = record {
  name = name;
  fs_path = name;
  hash_info = some "h";
  status = told;
  from_repo = false;
  from_db = false;
  version_aware = false;
}

abbrev train : List (String × String) → Stage
train told = record {
  addressing = "train";
  cmd = some "python train.py";
  deps = output "data" told ∷ [];
  outs = output "model" [] ∷ [];
  md5 = none;
  computed = none;
  cmd_changed = some false;
  frozen = false;
  always_changed = false;
}

abbrev options : Options
options = record { force = false; allow_missing = false; pull = false; interactive = false }

-- A run leaves the name of the stage.
abbrev run_stage : Stage → Exec StageError (List String) Unit
run_stage stage s = (return tt, stage.addressing ∷ s)

abbrev no_pull : Stage → Exec StageError (List String) Unit
no_pull stage s = (raise checkout_error, s)

changed-status_example : changed false [] (train (("data", "modified") ∷ [])) ≡ return true
unfolding status status_entries status_deps merged_status update_with entry_if empty Dict.insert
    Dict.lookup string_eq
changed-status_example =
    changed-status false [] (train (("data", "modified") ∷ [])) refl (refl, tt) (refl, tt)

reproduce-status_example :
    reproduce run_stage no_pull true options [] (train []) [] ≡ (return false, [])
unfolding status status_entries status_deps status_outs status_always_changed status_stage
    changed_stage is_callback truthy_text merged_status update_with entry_if empty string_eq
reproduce-status_example =
    reproduce-status run_stage no_pull true false options [] (train []) [] refl refl refl

run_test :
    reproduce run_stage no_pull true options [] (train (("data", "modified") ∷ [])) []
    ≡ (return true, "train" ∷ [])
unfolding reproduce after_changed try_pull confirmed_run pulled_or changed changed_stage
    changed_deps changed_outs first_stop stops_at modified_upstream is_callback truthy_text empty
    Dict.lookup string_eq
run_test = refl

-- A deleted dependency is passed over with allow_missing, unless an upstream stage has other data.
missing_test :
    reproduce run_stage no_pull true
      (record options { allow_missing = true })
      []
      (train (("data", "deleted") ∷ []))
      []
    ≡ (return false, [])
unfolding reproduce after_changed try_pull confirmed_run pulled_or changed changed_stage
    changed_deps changed_outs first_stop stops_at modified_upstream is_callback truthy_text empty
    Dict.lookup string_eq
missing_test = refl

upstream_test :
    changed true
      (record (train []) { outs = record (output "data" []) { hash_info = some "other" } ∷ [] }
        ∷ [])
      (train (("data", "deleted") ∷ []))
    ≡ return true
unfolding changed changed_stage changed_deps changed_outs first_stop stops_at modified_upstream
    is_callback truthy_text empty Dict.lookup string_eq option_eq
upstream_test = refl

-- A frozen stage that always changes reports so, and is not changed.
frozen_test :
    changed false [] (record (train []) { frozen = true; always_changed = true }) ≡ return false
unfolding changed changed_stage changed_deps changed_outs first_stop stops_at empty string_eq
frozen_test = refl

frozen_status_test :
    status false (λ _. true) (record (train []) { frozen = true; always_changed = true })
    ≡ ("train", StatusEntry.always_entry ∷ []) ∷ []
unfolding status status_entries status_deps status_outs status_always_changed status_stage
    changed_stage is_callback is_repo_import is_versioned_import is_import first_is truthy_text
    merged_status update_with entry_if empty string_eq nat_eq
frozen_status_test = refl

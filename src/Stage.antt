-- ===== src/Stage.antt =====
-- When a stage has changed, what its status says, and whether `reproduce` runs it (dvc/stage/__init__.py).
-- What an output or a dependency says of itself (`status()`, its hash, its class) are its fields; a run
-- and a pull are functions on a state of their own.
mod Examples
pub mod Changed
use dvc.Base.{
  ℕ, String, Bool, true, false, not, ◌&&◌, ◌||◌, Option, none, some, List, [], ◌∷◌, ◌++◌, ◌==◌,
  string_eq, option_eq, contains, any, select, length, nat_eq, or_raise, Result, return, raise,
  then_result, Exec, pure, throw, if◌then◌else◌,
}
use dvc.Base.Dict
use dvc.Base.Dict.{Dict}

-- An Output or a Dependency.
pub record Output : Type 0 where
  pub name : String
  pub fs_path : String
  pub hash_info : Option String
  pub status : Dict String
  pub from_repo : Bool
  pub from_db : Bool
  pub version_aware : Bool

-- `cmd_changed` is that of a PipelineStage; `computed` is what `compute_md5` of dvc/stage/utils.py gives.
pub record Stage : Type 0 where
  pub addressing : String
  pub cmd : Option String
  pub deps : List Output
  pub outs : List Output
  pub md5 : Option String
  pub computed : Option String
  pub cmd_changed : Option Bool
  pub frozen : Bool
  pub always_changed : Bool

pub data StageError : Type 0 where
  key_error : StageError
  aborted : StageError
  checkout_error : StageError
  other_error : String → StageError

unfoldable pub truthy_text : Option String → Bool
truthy_text none = false
truthy_text (some s) = not (s == "")

unfoldable pub empty : {A : Type 0} → List A → Bool
empty [] = true
empty (x ∷ xs) = false

unfoldable pub is_data_source : Stage → Bool
is_data_source stage = stage.cmd == none

unfoldable pub is_callback : Stage → Bool
unfolding truthy_text empty
is_callback stage = truthy_text stage.cmd && (empty stage.deps && empty stage.outs)

unfoldable pub is_import : Stage → Bool
unfolding truthy_text
is_import stage = not (truthy_text stage.cmd) && (length stage.deps == 1 && length stage.outs == 1)

-- A test on `deps[0]`.
unfoldable pub first_is : (Output → Bool) → List Output → Bool
first_is p [] = false
first_is p (dep ∷ deps) = p dep

unfoldable pub is_repo_import : Stage → Bool
unfolding is_import first_is
is_repo_import stage = is_import stage && first_is (λ d. d.from_repo) stage.deps

unfoldable pub is_versioned_import : Stage → Bool
unfolding is_import first_is
is_versioned_import stage =
    is_import stage && first_is (λ d. not d.from_db && d.version_aware) stage.deps

unfoldable pub compute_md5 : Stage → Option String
unfolding is_data_source is_import is_repo_import
compute_md5 stage =
    if is_data_source stage && not (is_import stage || is_repo_import stage)
    then none
    else stage.computed

unfoldable pub changed_stage : Stage → Bool
unfolding compute_md5
changed_stage stage = elim stage.cmd_changed [
  | none ↦ not (stage.md5 == compute_md5 stage)
  | some b ↦ b
]

-- A dependency that is deleted counts as modified where an output of an upstream stage has other data.
unfoldable pub modified_upstream : List Stage → Output → Bool
modified_upstream upstream dep =
    any
      (λ s. any (λ out. dep.fs_path == out.fs_path && not (dep.hash_info == out.hash_info)) s.outs)
      upstream

-- Whether the loops of `_changed_deps` and `changed_outs` stop at one with this status.
unfoldable pub stops_at : Output → (String → Bool) → Result StageError Bool
unfolding empty Dict.lookup
stops_at out passed =
    if empty out.status
    then return false
    else or_raise key_error (Dict.lookup out.name out.status) λ s. return (not (passed s))

unfoldable pub first_stop : (Output → String → Bool) → List Output → Result StageError Bool
unfolding stops_at
first_stop passed [] = return false
first_stop passed (out ∷ outs) =
    let rest = first_stop passed outs in
    then_result (stops_at out (passed out)) λ b. if b then return true else rest

unfoldable pub changed_deps : Bool → List Stage → Stage → Result StageError Bool
unfolding is_callback modified_upstream first_stop
changed_deps allow_missing upstream stage =
    if stage.frozen
    then return false
    else if is_callback stage || stage.always_changed
    then return true
    else first_stop
        (λ dep s. allow_missing && (s == "deleted" && not (modified_upstream upstream dep)))
        stage.deps

unfoldable pub changed_outs : Bool → Stage → Result StageError Bool
unfolding first_stop
changed_outs allow_missing stage =
    first_stop (λ out s. allow_missing && contains ("not in cache" ∷ "deleted" ∷ []) s) stage.outs

unfoldable pub changed : Bool → List Stage → Stage → Result StageError Bool
unfolding changed_stage changed_deps changed_outs
changed allow_missing upstream stage =
    if changed_stage stage
    then return true
    else then_result (changed_deps allow_missing upstream stage)
        λ b. if b then return true else changed_outs allow_missing stage

pub data StatusEntry : Type 0 where
  deps_entry : Dict String → StatusEntry
  outs_entry : Dict String → StatusEntry
  always_entry : StatusEntry
  checksum_entry : StatusEntry
  command_entry : StatusEntry

unfoldable pub update_with : Dict String → Dict String → Dict String
unfolding Dict.insert
update_with [] d = d
update_with ((k, s) ∷ more) d = update_with more (Dict.insert k s d)

-- `_status`
unfoldable pub merged_status : List Output → Dict String → Dict String
unfolding update_with
merged_status [] ret = ret
merged_status (out ∷ outs) ret = merged_status outs (update_with out.status ret)

unfoldable pub entry_if : (Dict String → StatusEntry) → Dict String → List StatusEntry
entry_if f [] = []
entry_if f (s ∷ d) = f (s ∷ d) ∷ []

unfoldable pub status_deps : Stage → List StatusEntry
unfolding merged_status entry_if
status_deps stage = entry_if deps_entry (merged_status stage.deps [])

-- `kept` is the filter of `filter_outs`.
unfoldable pub status_outs : (Output → Bool) → Stage → List StatusEntry
unfolding merged_status entry_if
status_outs kept stage = entry_if outs_entry (merged_status (select kept stage.outs) [])

unfoldable pub status_always_changed : Stage → List StatusEntry
unfolding is_callback
status_always_changed stage =
    if is_callback stage || stage.always_changed then always_entry ∷ [] else []

unfoldable pub status_stage : Stage → List StatusEntry
unfolding changed_stage
status_stage stage =
    if changed_stage stage
    then elim stage.cmd_changed [ none ↦ checksum_entry | some b ↦ command_entry ] ∷ []
    else []

unfoldable pub status_entries : Bool → (Output → Bool) → Stage → List StatusEntry
unfolding is_repo_import is_versioned_import status_deps status_outs status_always_changed
    status_stage
status_entries check_updates kept stage =
    let show_import = (is_repo_import stage || is_versioned_import stage) && check_updates in
    (if not stage.frozen || show_import then status_deps stage else [])
    ++ (status_outs kept stage ++ (status_always_changed stage ++ status_stage stage))

unfoldable pub status : Bool → (Output → Bool) → Stage → Dict (List StatusEntry)
unfolding empty status_entries
status check_updates kept stage =
    let ret = status_entries check_updates kept stage in
    if empty ret then [] else (stage.addressing, ret) ∷ []

pub record Options : Type 0 where
  pub force : Bool
  pub allow_missing : Bool
  pub pull : Bool
  pub interactive : Bool

module _ {S : Type 0} (run : Stage → Exec StageError S Unit)
    (pull_data : Stage → Exec StageError S Unit) (confirm : Bool) where
  -- From the message on; the answer is whether the stage was reproduced.
  unfoldable pub confirmed_run : Options → Stage → Exec StageError S Bool
  confirmed_run options stage s =
      if options.interactive && not confirm
      then (raise aborted, s)
      else (let (r, s') = run stage s in (then_result r (λ _. return true), s'))

  -- `try … except CheckoutError`
  unfoldable pub pulled_or :
      Result StageError Unit → S → Exec StageError S Bool → Result StageError Bool × S
  pulled_or (return u) s next = (return false, s)
  pulled_or (raise checkout_error) s next = next s
  pulled_or (raise e) s next = (raise e, s)

  unfoldable pub try_pull : Options → Stage → Exec StageError S Bool
  unfolding confirmed_run pulled_or
  try_pull options stage s =
      let (r, s') = pull_data stage s in pulled_or r s' (confirmed_run options stage)

  unfoldable pub after_changed : Options → List Stage → Stage → Bool → Exec StageError S Bool
  unfolding changed try_pull confirmed_run
  after_changed options upstream stage false s = (return false, s)
  after_changed options upstream stage true s = elim (changed true upstream stage) [
    | raise e ↦ (raise e, s)
    | return b ↦
        if not b && options.pull then try_pull options stage s else confirmed_run options stage s
  ]

  unfoldable pub reproduce : Options → List Stage → Stage → Exec StageError S Bool
  unfolding changed after_changed confirmed_run
  reproduce options upstream stage s =
      if options.force
      then confirmed_run options stage s
      else elim (changed options.allow_missing upstream stage) [
        | raise e ↦ (raise e, s)
        | return b ↦ after_changed options upstream stage b s
      ]

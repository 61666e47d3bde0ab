-- ===== src/Stage/Changed.antt =====
-- What `dvc repro` runs is what `dvc status` reports (dvc/stage/__init__.py).
use dvc.Base.{
  ◌≡◌, refl, sym, ◌∙◌, String, Bool, true, false, not, ◌&&◌, ◌||◌, List, [], ◌∷◌, ◌++◌, ◌==◌,
  string_eq, contains, select, Exec, given-some, All, Result, return, then_result, Bool-cases, inl,
  inr, arith, if◌then◌else◌, given,
}
use dvc.Base.Dict
use dvc.Base.Dict.{Dict}
use dvc.Stage.{
  Output, Stage, StageError, empty, is_callback, changed_stage, stops_at, first_stop,
  modified_upstream, changed_deps, changed_outs, changed, StatusEntry, update_with, merged_status,
  entry_if, status_deps, status_outs, status_always_changed, status_stage, status_entries, status,
  Options, reproduce, after_changed, deps_entry, outs_entry, always_entry,
}

-- A status that is not empty has an entry for the output itself.
abbrev pub IsNamed : Output → Type 0
IsNamed out = (empty out.status || given (Dict.lookup out.name out.status)) ≡ true

-- Some output has a status.
abbrev some_status : List Output → Bool
some_status [] = false
some_status (out ∷ outs) = not (empty out.status) || some_status outs

insert-empty : (k s : String) (d : Dict String) → empty (Dict.insert k s d) ≡ false
unfolding Dict.insert empty
insert-empty k s [] = refl
insert-empty k s ((j, t) ∷ d) = ground arith

update_with-empty : (more d : Dict String) → empty (update_with more d) ≡ (empty more && empty d)
unfolding update_with empty
update_with-empty [] d = refl
update_with-empty ((k, s) ∷ more) d =
    update_with-empty more (Dict.insert k s d) ∙ ground (arith, insert-empty k s d)

merged_status-empty :
    (outs : List Output) (ret : Dict String)
    → empty (merged_status outs ret) ≡ (not (some_status outs) && empty ret)
unfolding merged_status
merged_status-empty [] ret = refl
merged_status-empty (out ∷ outs) ret =
    merged_status-empty outs (update_with out.status ret)
    ∙ ground (arith, update_with-empty out.status ret)

stops_at-some :
    (out : Output) (passed : String → Bool)
    → ((s : String) → passed s ≡ false)
    → IsNamed out
    → stops_at out passed ≡ return (not (empty out.status))
unfolding stops_at
stops_at-some out passed never named = elim (Bool-cases (empty out.status)) [
  | inl e ↦ rw e refl
  | inr e ↦
      (let (s, there) = given-some (Dict.lookup out.name out.status) (rw e at named) in
        rw (e, there, never s) refl)
]

-- Without an excuse the loops stop just at the first output that has a status.
first_stop-some :
    (passed : Output → String → Bool) (outs : List Output)
    → ((out : Output) (s : String) → passed out s ≡ false)
    → All IsNamed outs
    → first_stop passed outs ≡ return (some_status outs)
unfolding first_stop
first_stop-some passed [] never named = refl
first_stop-some passed (out ∷ outs) never named =
    rw
      (
        stops_at-some out (passed out) (never out) named.0,
        first_stop-some passed outs never named.1,
      )
      (ground arith)

select_all : (outs : List Output) → select (λ _. true) outs ≡ outs
select_all [] = refl
select_all (out ∷ outs) = rw (select_all outs) refl

empty-entry_if : (f : Dict String → StatusEntry) (d : Dict String) → empty (entry_if f d) ≡ empty d
unfolding empty entry_if
empty-entry_if f [] = refl
empty-entry_if f (x ∷ d) = refl

empty-append : {A : Type 0} (xs ys : List A) → empty (xs ++ ys) ≡ (empty xs && empty ys)
unfolding empty
empty-append [] ys = refl
empty-append (x ∷ xs) ys = refl

empty-if : {A : Type 0} (b : Bool) (x : A) → empty (if b then x ∷ [] else []) ≡ not b
unfolding empty
empty-if true x = refl
empty-if false x = refl

status_deps-empty : (stage : Stage) → empty (status_deps stage) ≡ not (some_status stage.deps)
unfolding status_deps empty
status_deps-empty stage =
    empty-entry_if deps_entry (merged_status stage.deps [])
    ∙ (merged_status-empty stage.deps [] ∙ ground arith)

status_outs-empty :
    (stage : Stage) → empty (status_outs (λ _. true) stage) ≡ not (some_status stage.outs)
unfolding status_outs empty
status_outs-empty stage =
    empty-entry_if outs_entry (merged_status (select (λ _. true) stage.outs) [])
    ∙ rw (select_all stage.outs) (merged_status-empty stage.outs [] ∙ ground arith)

status_always_changed-empty :
    (stage : Stage)
    → empty (status_always_changed stage) ≡ not (is_callback stage || stage.always_changed)
unfolding status_always_changed
status_always_changed-empty stage =
    empty-if (is_callback stage || stage.always_changed) always_entry

status_stage-empty : (stage : Stage) → empty (status_stage stage) ≡ not (changed_stage stage)
unfolding status_stage
status_stage-empty stage = empty-if (changed_stage stage) _

-- The entries of a stage that is not frozen are empty just where nothing has changed.
status_entries-empty :
    (check_updates : Bool) (stage : Stage)
    → stage.frozen ≡ false
    → empty (status_entries check_updates (λ _. true) stage) ≡ (
        not (some_status stage.deps)
        && (not (some_status stage.outs)
            && (not (is_callback stage || stage.always_changed) && not (changed_stage stage))))
unfolding status_entries
status_entries-empty check_updates stage live = rw live (
    empty-append (status_deps stage)
      (status_outs (λ _. true) stage ++ (status_always_changed stage ++ status_stage stage))
    ∙ rw
        (
          empty-append (status_outs (λ _. true) stage)
              (status_always_changed stage ++ status_stage stage),
          empty-append (status_always_changed stage) (status_stage stage),
          status_deps-empty stage,
          status_outs-empty stage,
          status_always_changed-empty stage,
          status_stage-empty stage,
        )
        refl)

status-empty :
    (check_updates : Bool) (kept : Output → Bool) (stage : Stage)
    → empty (status check_updates kept stage) ≡ empty (status_entries check_updates kept stage)
unfolding status
status-empty check_updates kept stage =
    elim (Bool-cases (empty (status_entries check_updates kept stage))) [
      | inl e ↦ rw e refl
      | inr e ↦ rw e refl
    ]

-- `changed` without allow_missing returns for a stage that is not frozen, whose outputs and dependencies
-- report under their own names, and answers true just where the status of the stage, with no filter, is
-- not empty.
pub changed-status :
    (check_updates : Bool) (upstream : List Stage) (stage : Stage)
    → stage.frozen ≡ false
    → All IsNamed stage.deps
    → All IsNamed stage.outs
    → changed false upstream stage ≡ return (not (empty (status check_updates (λ _. true) stage)))
unfolding changed changed_deps changed_outs
changed-status check_updates upstream stage live deps outs =
    let said =
      status-empty check_updates (λ _. true) stage
      ∙ status_entries-empty check_updates stage live in
    rw (said, live)
      (decided (changed_stage stage) (is_callback stage || stage.always_changed)
        (some_status stage.deps) (some_status stage.outs)
        (first_stop-some
          (λ dep s. false && (s == "deleted" && not (modified_upstream upstream dep))) stage.deps
          (λ out s. refl) deps)
        (first_stop-some (λ out s. false && contains ("not in cache" ∷ "deleted" ∷ []) s) stage.outs
          (λ out s. refl) outs))
  where
    decided :
        (c a d o : Bool) {ds os : Result StageError Bool}
        → ds ≡ return d
        → os ≡ return o
        → (if c
            then return true
            else then_result (if a then return true else ds) (λ b. if b then return true else os))
          ≡ return (not (not d && (not o && (not a && not c))))
    decided true a d o p q = ground arith
    decided false true d o p q = ground arith
    decided false false true o p q = rw p refl
    decided false false false o p q = rw (p, q) (ground arith)

first_stop_silent :
    (passed : Output → String → Bool) (outs : List Output)
    → some_status outs ≡ false
    → first_stop passed outs ≡ return false
unfolding first_stop stops_at empty
first_stop_silent passed [] h = refl
first_stop_silent passed (out ∷ outs) h = elim (Bool-cases (empty out.status)) [
  | inl e ↦ rw (e, first_stop_silent passed outs (ground arith)) refl
  | inr e ↦ (let bad : true ≡ false = rw e at h in cc)
]

clean :
    (check_updates : Bool) (stage : Stage)
    → stage.frozen ≡ false
    → status check_updates (λ _. true) stage ≡ []
    → (some_status stage.deps ≡ false)
      × (some_status stage.outs ≡ false)
      × ((is_callback stage || stage.always_changed) ≡ false)
      × (changed_stage stage ≡ false)
unfolding empty
clean check_updates stage live h =
    let none : empty (status check_updates (λ _. true) stage) ≡ true = rw h refl in
    let all =
      sym (status_entries-empty check_updates stage live)
      ∙ (sym (status-empty check_updates (λ _. true) stage) ∙ none) in
    (ground (arith, all), ground (arith, all), ground (arith, all), ground (arith, all))

silent-changed :
    (check_updates allow_missing : Bool) (upstream : List Stage) (stage : Stage)
    → stage.frozen ≡ false
    → status check_updates (λ _. true) stage ≡ []
    → changed allow_missing upstream stage ≡ return false
unfolding changed changed_deps changed_outs
silent-changed check_updates allow_missing upstream stage live silent =
    let (ds, os, a, c) = clean check_updates stage live silent in
    rw
      (
        c,
        live,
        a,
        first_stop_silent
            (λ dep s. allow_missing && (s == "deleted" && not (modified_upstream upstream dep)))
            stage.deps ds,
        first_stop_silent (λ out s. allow_missing && contains ("not in cache" ∷ "deleted" ∷ []) s)
            stage.outs os,
      )
      refl

-- A stage that is not frozen and has an empty status is not run: reproduce, without force and with
-- allow_missing or without, answers None and touches nothing.
pub reproduce-status :
    {S : Type 0} (run pull_data : Stage → Exec StageError S Unit) (confirm check_updates : Bool)
    (options : Options) (upstream : List Stage) (stage : Stage) (s : S)
    → stage.frozen ≡ false
    → options.force ≡ false
    → status check_updates (λ _. true) stage ≡ []
    → reproduce run pull_data confirm options upstream stage s ≡ (return false, s)
unfolding reproduce after_changed
reproduce-status run pull_data confirm check_updates options upstream stage s live no_force silent =
    rw (no_force, silent-changed check_updates options.allow_missing upstream stage live silent)
      refl

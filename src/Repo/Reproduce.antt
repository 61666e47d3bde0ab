-- ===== src/Repo/Reproduce.antt =====
-- The loop of dvc/repo/reproduce.py. `repro_fn` is any function that reproduces a stage and changes
-- a state of its own; the graph answers what networkx does, and has every stage of the plan.
pub mod Schedule
pub mod Trace
pub mod Ignore
pub mod KeepGoing
pub mod Skips
pub mod Fail
use dvc.Base.{
  Bool, true, false, not, ◌&&◌, ◌||◌, Option, none, some, List, [], ◌∷◌, ◌++◌, Eq, ◌==◌, contains,
  select, Result, return, raise, Exec, pure, lift, ◌>>=◌, if◌then◌else◌,
}

pub data OnError : Type 0 where
  fail keep_going ignore : OnError

-- The two reads of a stage's neighbours, and the stages that a depth first search of the reversed
-- graph visits from a stage, itself among them.
pub record DiGraph (S : Type 0) : Type 0 where
  pub nodes : List S
  pub successors : S → List S
  pub predecessors : S → List S
  pub reachable_in_reverse : S → List S

-- ReproductionError, with the exception that it was raised from and the stages that it names.
pub record ReproductionError (S E : Type 0) : Type 0 where
  pub cause : Option E
  pub stages : List S

-- The local variables of the loop. `force_state` has a value for every stage of the plan.
pub record Progress (S : Type 0) : Type 0 where
  pub result : List S
  pub failed : List S
  pub to_skip : List S
  pub force_state : S → Bool

module _ {S : Type 0} where
  -- `if graph`: a graph without nodes counts as none.
  unfoldable pub truthy : Option (DiGraph S) → Option (DiGraph S)
  truthy none = none
  truthy (some g) = elim g.nodes [ [] ↦ none | _ ∷ _ ↦ some g ]

  unfoldable pub upstream_nodes : Option (DiGraph S) → S → List S
  unfolding truthy
  upstream_nodes graph node = elim (truthy graph) [ none ↦ [] | some g ↦ g.successors node ]

  unfoldable pub downstream_nodes : Option (DiGraph S) → S → List S
  unfolding truthy
  downstream_nodes graph node = elim (truthy graph) [ none ↦ [] | some g ↦ g.predecessors node ]

  unfoldable pub truth : Option S → Bool
  truth none = false
  truth (some ret) = true

  -- The variables before the first turn.
  unfoldable pub start : Bool → Progress S
  start force = record { result = []; failed = []; to_skip = []; force_state = λ _. force }

  -- `if ret: result.append(ret)`
  unfoldable pub appended : Option S → List S → List S
  appended none result = result
  appended (some ret) result = result ++ ret ∷ []

module _ {S : Type 0} ⦃eq : Eq S⦄ where
  unfoldable pub handle_error : Option (DiGraph S) → OnError → S → List S
  unfolding truthy
  handle_error graph OnError.ignore stage = []
  handle_error graph _ stage = elim (truthy graph) [
    | none ↦ []
    | some g ↦ select (λ s. not (s == stage)) (g.reachable_in_reverse stage)
  ]

  -- `force_state.update(dict.fromkeys(downstream, True))`, where the stage forces what is downstream.
  unfoldable pub forced : Bool → List S → (S → Bool) → S → Bool
  forced true downstream force_state s = contains downstream s || force_state s
  forced false downstream force_state s = force_state s

module _ {S E : Type 0} ⦃eq : Eq S⦄ where
  -- What the loop does with the answer of `repro_fn`, or with its exception.
  unfoldable pub after_call :
      Option (DiGraph S)
      → Bool
      → OnError
      → S
      → Progress S
      → Result E (Option S)
      → Result (ReproductionError S E) (Progress S)
  unfolding handle_error downstream_nodes truth appended forced
  after_call graph force_downstream on_error stage p (return ret) = return (record p {
    result = appended ret p.result;
    force_state =
        forced (force_downstream && (truth ret || p.force_state stage))
          (downstream_nodes graph stage) p.force_state;
  })
  after_call graph force_downstream OnError.fail stage p (raise exc) =
      raise (record { cause = some exc; stages = stage ∷ [] })
  after_call graph force_downstream on_error stage p (raise exc) = return (record p {
    failed = p.failed ++ stage ∷ [];
    to_skip = p.to_skip ++ handle_error graph on_error stage;
  })

module _ {S E : Type 0} where
  -- After the loop: `if on_error != "ignore" and failed`.
  unfoldable pub reported : OnError → Progress S → Result (ReproductionError S E) (List S)
  reported OnError.ignore p = return p.result
  reported _ p = elim p.failed [
    | [] ↦ return p.result
    | s ∷ stages ↦ raise (record { cause = none; stages = s ∷ stages })
  ]

module _ {S E W : Type 0} ⦃eq : Eq S⦄ (graph : Option (DiGraph S)) (force_downstream : Bool)
    (on_error : OnError) (repro_fn : S → List S → Bool → Exec E W (Option S)) where
  -- One turn of the loop.
  unfoldable pub step : S → Progress S → Exec (ReproductionError S E) W (Progress S)
  unfolding after_call upstream_nodes
  step stage p w =
      if contains p.to_skip stage
      then (return p, w)
      else (let (r, w') = repro_fn stage (upstream_nodes graph stage) (p.force_state stage) w in
          (after_call graph force_downstream on_error stage p r, w'))

  unfoldable pub loop : List S → Progress S → Exec (ReproductionError S E) W (Progress S)
  loop [] p = pure p
  loop (stage ∷ stages) p = do p' ← step stage p; loop stages p'

  unfoldable pub reproduce : Bool → List S → Exec (ReproductionError S E) W (List S)
  unfolding reported loop start
  reproduce force stages = do p ← loop stages (start force); lift (reported on_error p)

-- ===== src/Repo/Reproduce/Schedule.antt =====
-- Which stages the loop of dvc/repo/reproduce.py is to run, said of the edges of the graph, and what the
-- calls answered.
use dvc.Base.{
  ◌≡◌, ◌≢◌, refl, sym, ◌∙◌, ◌⊎◌, inl, inr, Bool, true, false, ◌&&◌, Option, none, some, List, [],
  ◌∷◌, ◌++◌, Eq, ◌==◌, contains, Result, return, raise, Exec, Bool-cases, not, select, arith,
}
use dvc.Repo.Reproduce.{OnError, DiGraph, handle_error, truthy}

-- What each call answered, in the order of the calls.
abbrev pub Calls : (S E : Type 0) → Type 0
Calls S E = List (S × Result E (Option S))

-- `f`, with what it answered.
abbrev pub recorded :
    {S E W : Type 0}
    → (S → List S → Bool → Exec E W (Option S))
    → S
    → List S
    → Bool
    → Exec E (W × Calls S E) (Option S)
recorded f stage upstream force (w, calls) =
    let (r, w') = f stage upstream force w in (r, (w', calls ++ (stage, r) ∷ []))

-- The stages that raised.
abbrev pub raised_in : {S E : Type 0} → Calls S E → List S
raised_in [] = []
raised_in ((s, return ret) ∷ calls) = raised_in calls
raised_in ((s, raise exc) ∷ calls) = s ∷ raised_in calls

-- The stages that were answered as reproduced.
abbrev pub answered_in : {S E : Type 0} → Calls S E → List S
answered_in [] = []
answered_in ((s, return none) ∷ calls) = answered_in calls
answered_in ((s, return (some ret)) ∷ calls) = ret ∷ answered_in calls
answered_in ((s, raise exc) ∷ calls) = answered_in calls

module _ {S : Type 0} ⦃eq : Eq S⦄ where
  -- `s` needs `t`: an edge goes from a stage to one that it depends on.
  pub data Needs (g : DiGraph S) : S → S → Type 0 where
    edge : {s t : S} → contains (g.successors s) t ≡ true → Needs g s t
    chain : {s u t : S} → contains (g.successors s) u ≡ true → Needs g u t → Needs g s t

  -- What networkx documents of its search in the reversed graph, and that edges are between nodes.
  pub record IsSearch (g : DiGraph S) : Type 0 where
    pub found : (s t : S) → contains (g.reachable_in_reverse t) s ≡ true → (s ≡ t) ⊎ Needs g s t
    pub complete : (s t : S) → Needs g s t → contains (g.reachable_in_reverse t) s ≡ true
    pub inhabited : (s t : S) → g.nodes ≡ [] → ¬ (Needs g s t)

  -- Without a graph no stage is known to need another.
  abbrev pub Depends : Option (DiGraph S) → S → S → Type 0
  Depends none s t = ⊥
  Depends (some g) s t = (s ≢ t) × Needs g s t

  abbrev pub IsGraph : Option (DiGraph S) → Type 0
  IsGraph none = Unit
  IsGraph (some g) = IsSearch g

  -- One of the stages that failed is needed by `s`.
  abbrev pub Blamed : Option (DiGraph S) → List S → S → Type 0
  Blamed graph failed s = (t : S) × (contains failed t ≡ true) × Depends graph s t

module _ {S E : Type 0} ⦃eq : Eq S⦄ (graph : Option (DiGraph S)) where
  -- The calls for the stages of a plan, after some have failed: a stage is passed over just where it needs
  -- one that has failed.
  pub data Schedule : List S → List S → Calls S E → Type 0 where
    finished : {failed : List S} → Schedule failed [] []
    passed :
        {failed stages : List S} {calls : Calls S E} {s : S}
        → Blamed graph failed s
        → Schedule failed stages calls
        → Schedule failed (s ∷ stages) calls
    returned :
        {failed stages : List S} {calls : Calls S E} {s : S} {ret : Option S}
        → ¬ (Blamed graph failed s)
        → Schedule failed stages calls
        → Schedule failed (s ∷ stages) ((s, return ret) ∷ calls)
    failed_at :
        {failed stages : List S} {calls : Calls S E} {s : S} {exc : E}
        → ¬ (Blamed graph failed s)
        → Schedule (failed ++ s ∷ []) stages calls
        → Schedule failed (s ∷ stages) ((s, raise exc) ∷ calls)

module _ {S : Type 0} ⦃eq : Eq S⦄ where
  contains-without :
      (t s : S) (xs : List S)
      → contains (select (λ x. not (x == t)) xs) s ≡ (contains xs s && not (s == t))
  contains-without t s [] = refl
  contains-without t s (x ∷ xs) = elim (Bool-cases (s == x)) [
    | inl e ↦ (let q : s ≡ x = ground arith in rw (← q) (ground (arith, contains-without t s xs)))
    | inr e ↦ ground (arith, contains-without t s xs)
  ]

  handle_error-empty :
      (g : DiGraph S) (t : S) → g.nodes ≡ [] → handle_error (some g) OnError.keep_going t ≡ []
  unfolding handle_error truthy
  handle_error-empty g t q = rw q refl

  handle_error-some :
      (g : DiGraph S) (t n : S) (ns : List S)
      → g.nodes ≡ n ∷ ns
      → handle_error (some g) OnError.keep_going t
        ≡ select (λ s. not (s == t)) (g.reachable_in_reverse t)
  unfolding handle_error truthy
  handle_error-some g t n ns q = rw q refl

  -- What handle_error answers is just what depends on the stage.
  pub handle_error-Depends :
      (graph : Option (DiGraph S))
      → IsGraph graph
      → (s t : S) → contains (handle_error graph OnError.keep_going t) s ≡ true
      → Depends graph s t
  unfolding handle_error truthy
  handle_error-Depends none h s t c = cc
  handle_error-Depends (some g) h s t c = go g.nodes refl
    where
      go : (ns : List S) → g.nodes ≡ ns → Depends (some g) s t
      go [] q = let bad : false ≡ true = rw (handle_error-empty g t q) at c in cc
      go (n ∷ ns) q =
          let both : (contains (g.reachable_in_reverse t) s && not (s == t)) ≡ true =
            sym (contains-without t s (g.reachable_in_reverse t))
            ∙ (rw (handle_error-some g t n ns q) at c) in
          let other : s ≢ t = λ e. (let l : (s == t) ≡ true = ground (arith, e) in ground arith) in
          elim (h.found s t (ground arith)) [ inl e ↦ absurd (other e) | inr d ↦ (other, d) ]

  pub Depends-handle_error :
      (graph : Option (DiGraph S))
      → IsGraph graph
      → (s t : S) → Depends graph s t
      → contains (handle_error graph OnError.keep_going t) s ≡ true
  Depends-handle_error none h s t d = absurd d
  Depends-handle_error (some g) h s t d = go g.nodes refl
    where
      go :
          (ns : List S)
          → g.nodes ≡ ns
          → contains (handle_error (some g) OnError.keep_going t) s ≡ true
      go [] q = absurd (h.inhabited s t q d.1)
      go (n ∷ ns) q =
          rw (handle_error-some g t n ns q, contains-without t s (g.reachable_in_reverse t))
            (ground (arith, h.complete s t d.1, d.0))

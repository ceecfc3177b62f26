-- ===== src/Node/Service/Completed.antt =====
-- When the assembly of a node completes (node/cli/src/service.rs).
use ipci_blockchain.Prelude.{true, false, Option, none, some, List, [], ◌∷◌, ◌≡◌, ◌↔◌, refl}
use ipci_blockchain.Node.Service.{Configuration, new_full_base, new_light_base, new_partial}
use ipci_blockchain.Node.Service.Steps.{Failures, Step, Ended, completed}
use ipci_blockchain.Node.Service.Execute.{Plan, execute, stop_on}
use ipci_blockchain.Node.Service.Plan.{
  full_plan, light_plan, partial_plan, new_partial-Follows, new_full_base-plan, new_light_base-plan,
}

module _ {Address ServiceError : Type 0} (fails : Failures Address ServiceError) where
  -- none of the calls of a plan that can fail does
  abbrev pub Succeeds : Plan Address → Type 0
  Succeeds [] = Unit
  Succeeds ((false, s) ∷ p) = Succeeds p
  Succeeds ((true, s) ∷ p) = (fails s ≡ none) × Succeeds p

  stop_on-completed :
      (o : Option ServiceError) (s : Step Address) (rest : Ended ServiceError × List (Step Address))
      → (stop_on o s rest).0 ≡ completed
      → (o ≡ none) × (rest.0 ≡ completed)
  stop_on-completed none s rest h = (refl, h)
  stop_on-completed (some e) s rest h = cc h

  execute-Succeeds : (p : Plan Address) → (execute fails p).0 ≡ completed → Succeeds p
  unfolding execute
  execute-Succeeds [] h = tt
  execute-Succeeds ((false, s) ∷ p) h = execute-Succeeds p h
  execute-Succeeds ((true, s) ∷ p) h =
      let (ran, rest) = stop_on-completed (fails s) s (execute fails p) h in
      (ran, execute-Succeeds p rest)

  execute-completed : (p : Plan Address) → Succeeds p → (execute fails p).0 ≡ completed
  unfolding execute
  execute-completed [] h = refl
  execute-completed ((false, s) ∷ p) h = execute-completed p h
  execute-completed ((true, s) ∷ p) h = rw h.0 (execute-completed p h.1)

  execute-completed_iff : (p : Plan Address) → ((execute fails p).0 ≡ completed) ↔ Succeeds p
  execute-completed_iff p = (execute-Succeeds p, execute-completed p)

module _ {Address ServiceError : Type 0} (config : Configuration Address)
    (fails : Failures Address ServiceError) where
  -- The assembly of a full node completes exactly when none of the calls of its plan fails.
  pub new_full_base-completed_iff :
      ((new_full_base ServiceError config fails).0 ≡ completed) ↔ Succeeds fails (full_plan config)
  new_full_base-completed_iff =
      rw (new_full_base-plan config fails) (execute-completed_iff fails (full_plan config))

  -- and that of a light node likewise
  pub new_light_base-completed_iff :
      ((new_light_base ServiceError config fails).0 ≡ completed)
      ↔ Succeeds fails (light_plan config)
  new_light_base-completed_iff =
      rw (new_light_base-plan config fails) (execute-completed_iff fails (light_plan config))

-- and that of a node's parts, which the work on a database needs
pub new_partial-completed_iff :
    {Address ServiceError : Type 0} (fails : Failures Address ServiceError)
    → ((new_partial ServiceError fails).0 ≡ completed) ↔ Succeeds fails partial_plan
new_partial-completed_iff fails =
    rw (new_partial-Follows.follows fails) (execute-completed_iff fails partial_plan)

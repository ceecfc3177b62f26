-- ===== src/Node/Service/Behaviour.antt =====
-- What a full node runs, by its role and settings, and how its start ends (node/cli/src/service.rs).
use ipci_blockchain.Prelude.{Bool, true, false, not, ◌||◌, some, List, [], ◌∷◌, ◌++◌, ◌≡◌}
use ipci_blockchain.Node.Service.{Configuration, Role, authority, sentry, GrandpaConfig}
use ipci_blockchain.Node.Service.Steps.{
  Failures, Step, GrandpaConfig, Ended, completed, failed, panicked,
}
use ipci_blockchain.Node.Service.Execute.{Plan}
use ipci_blockchain.Node.Service.Started.{any, is_start_network}

module _ {Address : Type 0} where
  -- the calls that start a service of the node
  abbrev pub proposes : Step Address → Bool
  proposes (Step.start_babe force_authoring) = true
  proposes _ = false

  abbrev pub discovers_peers : Step Address → Bool
  discovers_peers (Step.new_discovery_worker sentries role) = true
  discovers_peers _ = false

  abbrev pub votes : Step Address → Bool
  votes (Step.run_grandpa_voter config) = true
  votes _ = false

  abbrev pub disables_grandpa : Step Address → Bool
  disables_grandpa Step.setup_disabled_grandpa = true
  disables_grandpa _ = false

  abbrev pub works_offchain : Step Address → Bool
  works_offchain Step.build_offchain_workers = true
  works_offchain _ = false

  abbrev pub is_authority_role : Role Address → Bool
  is_authority_role (authority sentry_nodes) = true
  is_authority_role _ = false

  abbrev pub is_sentry_role : Role Address → Bool
  is_sentry_role sentry = true
  is_sentry_role _ = false

  -- Among the calls made, those that start a service are the ones that the role and the settings ask for.
  abbrev pub RunsServices : Role Address → Bool → Bool → List (Step Address) → Type 0
  RunsServices role disable_grandpa offchain_worker_enabled made =
      (any proposes made ≡ is_authority_role role)
      × (any discovers_peers made ≡ (is_authority_role role || is_sentry_role role))
      × (any votes made ≡ not disable_grandpa)
      × (any disables_grandpa made ≡ disable_grandpa)
      × (any works_offchain made ≡ offchain_worker_enabled)
      × (any is_start_network made ≡ true)

module _ {Address ServiceError : Type 0} where
  -- the last call that was made failed with the error
  abbrev pub LastFailed :
      Failures Address ServiceError → ServiceError → List (Step Address) → Type 0
  LastFailed fails e made =
      (before : List (Step Address)) × (last : Step Address) × (made ≡ before ++ last ∷ [])
      × (fails last ≡ some e)

  -- How an assembly ends, with the calls made: complete, with the services of the configuration, or by
  -- the failure of its last call, and not by a panic.
  abbrev pub Behaves :
      Configuration Address
      → Failures Address ServiceError
      → Ended ServiceError × List (Step Address)
      → Type 0
  Behaves config fails (completed, made) =
      RunsServices config.role config.disable_grandpa config.offchain_worker_enabled made
  Behaves config fails (failed e, made) = LastFailed fails e made
  Behaves config fails (panicked, made) = ⊥

  -- the same of a plan, which makes all its calls if it completes
  abbrev Ends :
      (List (Step Address) → Type 0)
      → Failures Address ServiceError
      → Ended ServiceError × List (Step Address)
      → Type 0
  Ends P fails (completed, made) = P made
  Ends P fails (failed e, made) = LastFailed fails e made
  Ends P fails (panicked, made) = ⊥

-- ===== src/Node/Service/Plan.antt =====
-- What node/cli/src/service.rs does to start a node, by the node's role and settings.
use ipci_blockchain.Prelude.{Bool, true, false, not, List, [], ◌∷◌, ◌++◌, ◌≡◌}
use ipci_blockchain.Text.{codes}
use ipci_blockchain.Node.Service.{
  Configuration, Role, authority, sentry, full, light, GrandpaConfig, grandpa_config, new_partial,
  new_full_base, new_light_base, start_authoring, start_discovery, start_grandpa, discovers,
  discovery_role,
}
use ipci_blockchain.Node.Service.Steps.{Failures, Step, DiscoveryRole, GrandpaConfig, when}
use ipci_blockchain.Node.Service.Execute.{
  Plan, only, execute, Follows, try_call-Follows, call-Follows, done-Follows, >>-Follows,
  when-Follows,
}

module _ {Address : Type 0} where
  abbrev can_fail : Step Address → Plan Address
  can_fail s = (true, s) ∷ []

  abbrev cannot_fail : Step Address → Plan Address
  cannot_fail s = (false, s) ∷ []

  abbrev pub partial_plan : Plan Address
  partial_plan =
      can_fail Step.new_full_parts
      ++ cannot_fail Step.new_full_pool
      ++ can_fail Step.grandpa_block_import
      ++ can_fail Step.get_or_compute_babe_config
      ++ can_fail Step.babe_block_import
      ++ can_fail Step.import_queue

  -- only an authority proposes blocks
  abbrev authoring_plan : Bool → Role Address → Plan Address
  authoring_plan force_authoring (authority sentry_nodes) =
      can_fail (Step.start_babe force_authoring)
      ++ cannot_fail (Step.spawn true (codes "babe-proposer"))
  authoring_plan force_authoring sentry = []
  authoring_plan force_authoring full = []
  authoring_plan force_authoring light = []

  abbrev discovery_as : List Address → DiscoveryRole → Plan Address
  discovery_as sentries role =
      cannot_fail (Step.new_discovery_worker sentries role)
      ++ cannot_fail (Step.spawn false (codes "authority-discovery-worker"))

  -- an authority tells the discovery of its sentries, and a sentry runs it with none
  abbrev discovery_plan : Role Address → Plan Address
  discovery_plan (authority sentry_nodes) = discovery_as sentry_nodes DiscoveryRole.authority
  discovery_plan sentry = discovery_as [] DiscoveryRole.sentry
  discovery_plan full = []
  discovery_plan light = []

  abbrev grandpa_plan : Bool → GrandpaConfig → Plan Address
  grandpa_plan true config = can_fail Step.setup_disabled_grandpa
  grandpa_plan false config =
      can_fail (Step.run_grandpa_voter config)
      ++ cannot_fail (Step.spawn true (codes "grandpa-voter"))

  abbrev offchain_plan : Bool → Plan Address
  offchain_plan enabled = only enabled (cannot_fail Step.build_offchain_workers)

  -- what follows the offchain workers
  abbrev pub tasks_plan : Bool → Role Address → Bool → GrandpaConfig → Plan Address
  tasks_plan force_authoring role disabled config =
      can_fail Step.spawn_tasks
      ++ cannot_fail Step.with_startup_data
      ++ (authoring_plan force_authoring role
          ++ (discovery_plan role
              ++ (grandpa_plan disabled config ++ cannot_fail Step.start_network)))

  abbrev pub workers_plan : Bool → Plan Address → Plan Address
  workers_plan enabled tasks =
      partial_plan ++ can_fail Step.build_network ++ (offchain_plan enabled ++ tasks)

  -- the start of a full node
  abbrev pub full_plan : Configuration Address → Plan Address
  full_plan config =
      workers_plan config.offchain_worker_enabled (
        tasks_plan config.force_authoring config.role config.disable_grandpa
          (grandpa_config config))

  -- the start of a light node: its network runs before its tasks are spawned
  abbrev pub light_plan : Configuration Address → Plan Address
  light_plan config =
      can_fail Step.new_light_parts
      ++ cannot_fail Step.new_light_pool
      ++ can_fail Step.light_block_import
      ++ can_fail Step.get_or_compute_babe_config
      ++ can_fail Step.babe_block_import
      ++ can_fail Step.import_queue
      ++ can_fail Step.build_network
      ++ cannot_fail Step.start_network
      ++ (offchain_plan config.offchain_worker_enabled ++ can_fail Step.spawn_tasks)

module _ {Address ServiceError : Type 0} where
  pub new_partial-Follows : Follows (new_partial {Address = Address} ServiceError) partial_plan
  unfolding new_partial
  new_partial-Follows = >>-Follows (try_call-Follows _) (
      >>-Follows (call-Follows _) (
        >>-Follows (try_call-Follows _)
          (>>-Follows (try_call-Follows _) (>>-Follows (try_call-Follows _) (try_call-Follows _)))))

  start_authoring-Follows :
      (force_authoring : Bool) (role : Role Address)
      → Follows
          (start_authoring ServiceError force_authoring role)
          (authoring_plan force_authoring role)
  unfolding start_authoring
  start_authoring-Follows force_authoring (authority sentry_nodes) =
      >>-Follows (try_call-Follows _) (call-Follows _)
  start_authoring-Follows force_authoring sentry = done-Follows
  start_authoring-Follows force_authoring full = done-Follows
  start_authoring-Follows force_authoring light = done-Follows

  -- the `unreachable!` is not reached
  start_discovery-Follows :
      (role : Role Address)
      → Follows
          (when (discovers role) (start_discovery ServiceError (discovery_role role)))
          (discovery_plan role)
  unfolding start_discovery discovers discovery_role
  start_discovery-Follows (authority sentry_nodes) = >>-Follows (call-Follows _) (call-Follows _)
  start_discovery-Follows sentry = >>-Follows (call-Follows _) (call-Follows _)
  start_discovery-Follows full = done-Follows
  start_discovery-Follows light = done-Follows

  start_grandpa-Follows :
      (disabled : Bool) (config : GrandpaConfig)
      → Follows
          (start_grandpa {Address = Address} ServiceError (not disabled) config)
          (grandpa_plan disabled config)
  unfolding start_grandpa
  start_grandpa-Follows true config = try_call-Follows _
  start_grandpa-Follows false config = >>-Follows (try_call-Follows _) (call-Follows _)

  full-Follows :
      (config : Configuration Address)
      → Follows (new_full_base ServiceError config) (full_plan config)
  unfolding new_full_base
  full-Follows config = >>-Follows new_partial-Follows (
      >>-Follows (try_call-Follows Step.build_network) (
        >>-Follows {p = offchain_plan config.offchain_worker_enabled}
          {q = tasks_plan config.force_authoring config.role config.disable_grandpa
            (grandpa_config config)}
          (when-Follows config.offchain_worker_enabled (call-Follows Step.build_offchain_workers))
          (>>-Follows (try_call-Follows Step.spawn_tasks) (
            >>-Follows (call-Follows Step.with_startup_data) (
              >>-Follows (start_authoring-Follows config.force_authoring config.role) (
                >>-Follows (start_discovery-Follows config.role) (
                  >>-Follows (start_grandpa-Follows config.disable_grandpa (grandpa_config config))
                    (call-Follows Step.start_network))))))))

  light-Follows :
      (config : Configuration Address)
      → Follows (new_light_base ServiceError config) (light_plan config)
  unfolding new_light_base
  light-Follows config = >>-Follows (try_call-Follows _) (
      >>-Follows (call-Follows _) (
        >>-Follows (try_call-Follows _) (
          >>-Follows (try_call-Follows _) (
            >>-Follows (try_call-Follows _) (
              >>-Follows (try_call-Follows _) (
                >>-Follows (try_call-Follows _) (
                  >>-Follows (call-Follows _) (
                    >>-Follows (when-Follows config.offchain_worker_enabled (call-Follows _))
                      (try_call-Follows _)))))))))

-- Starting a full node makes the calls of its plan, up to the first that fails, and returns its error.
pub new_full_base-plan :
    {Address ServiceError : Type 0} (config : Configuration Address)
    (fails : Failures Address ServiceError)
    → new_full_base ServiceError config fails ≡ execute fails (full_plan config)
new_full_base-plan config = (full-Follows config).follows

-- Starting a light node makes the calls of its plan, up to the first that fails, and returns its error.
pub new_light_base-plan :
    {Address ServiceError : Type 0} (config : Configuration Address)
    (fails : Failures Address ServiceError)
    → new_light_base ServiceError config fails ≡ execute fails (light_plan config)
new_light_base-plan config = (light-Follows config).follows

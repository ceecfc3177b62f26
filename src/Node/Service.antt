-- ===== src/Node/Service.antt =====
-- node/cli/src/service.rs: how a full and a light node are assembled. The handles that the framework
-- returns do not decide what is done next, so this model keeps the calls, in their order and with the
-- settings that they are given, and which of them fail. Node/Handles.antt keeps the handles.
pub mod Steps
pub mod Execute
pub mod Plan
pub mod Completed
pub mod Started
pub mod Behaviour
use ipci_blockchain.Prelude.{ℕ, Bool, true, false, not, Option, none, some, List, [], ◌∷◌}
use ipci_blockchain.Text.{Text, codes}
use Steps.{Assembly, Step, DiscoveryRole, GrandpaConfig, try_call, call, panic, done, when, ◌>>◌}

-- The variants of `Role` that the source tells apart; `full` is any other.
pub data Role (Address : Type 0) : Type 0 where
  full : Role Address
  light : Role Address
  sentry : Role Address
  authority : List Address → Role Address

-- `Configuration`, the fields that the source reads, with the two tests of the framework on a role
pub record Configuration (Address : Type 0) : Type 0 where
  pub role : Role Address
  pub is_authority : Role Address → Bool
  pub is_network_authority : Role Address → Bool
  pub force_authoring : Bool
  pub disable_grandpa : Bool
  pub offchain_worker_enabled : Bool
  pub node_name : Text

-- `matches!(role, Role::Authority{..} | Role::Sentry {..})`
unfoldable pub discovers : {Address : Type 0} → Role Address → Bool
discovers (authority sentry_nodes) = true
discovers sentry = true
discovers full = false
discovers light = false

-- the match under it; `none` is its `unreachable!`
unfoldable pub discovery_role :
    {Address : Type 0} → Role Address → Option (List Address × DiscoveryRole)
discovery_role (authority sentry_nodes) = some (sentry_nodes, DiscoveryRole.authority)
discovery_role sentry = some ([], DiscoveryRole.sentry)
discovery_role full = none
discovery_role light = none

-- the configuration of the finality gadget
unfoldable pub grandpa_config : {Address : Type 0} → Configuration Address → GrandpaConfig
grandpa_config config = record {
  gossip_duration_ms = 333;
  justification_period = 512;
  name = some config.node_name;
  observer_enabled = false;
  has_keystore = config.is_authority config.role;
  is_authority = config.is_network_authority config.role;
}

module _ {Address : Type 0} (ServiceError : Type 0) where
  -- `new_partial`
  unfoldable pub new_partial : Assembly Address ServiceError
  new_partial = do
    try_call Step.new_full_parts
    call Step.new_full_pool
    try_call Step.grandpa_block_import
    try_call Step.get_or_compute_babe_config
    try_call Step.babe_block_import
    try_call Step.import_queue

  -- the block of `new_full_base` under `if let Role::Authority`
  unfoldable pub start_authoring : Bool → Role Address → Assembly Address ServiceError
  start_authoring force_authoring (authority sentry_nodes) = do
    try_call (Step.start_babe force_authoring)
    call (Step.spawn true (codes "babe-proposer"))
  start_authoring force_authoring full = done
  start_authoring force_authoring light = done
  start_authoring force_authoring sentry = done

  -- the block of `new_full_base` that spawns the authority discovery, after the match
  unfoldable pub start_discovery :
      Option (List Address × DiscoveryRole) → Assembly Address ServiceError
  start_discovery (some (sentries, role)) = do
    call (Step.new_discovery_worker sentries role)
    call (Step.spawn false (codes "authority-discovery-worker"))
  start_discovery none = panic

  -- the block of `new_full_base` under `if enable_grandpa`
  unfoldable pub start_grandpa : Bool → GrandpaConfig → Assembly Address ServiceError
  start_grandpa true config = do
    try_call (Step.run_grandpa_voter config)
    call (Step.spawn true (codes "grandpa-voter"))
  start_grandpa false config = try_call Step.setup_disabled_grandpa

  -- `new_full_base`; `new_full` differs from it in what it returns only
  unfoldable pub new_full_base : Configuration Address → Assembly Address ServiceError
  new_full_base config = do
    new_partial
    try_call Step.build_network
    when config.offchain_worker_enabled (call Step.build_offchain_workers)
    try_call Step.spawn_tasks
    call Step.with_startup_data
    start_authoring config.force_authoring config.role
    when (discovers config.role) (start_discovery (discovery_role config.role))
    start_grandpa (not config.disable_grandpa) (grandpa_config config)
    call Step.start_network

  -- `new_light_base`; `new_light` differs from it in what it returns only
  unfoldable pub new_light_base : Configuration Address → Assembly Address ServiceError
  new_light_base config = do
    try_call Step.new_light_parts
    call Step.new_light_pool
    try_call Step.light_block_import
    try_call Step.get_or_compute_babe_config
    try_call Step.babe_block_import
    try_call Step.import_queue
    try_call Step.build_network
    call Step.start_network
    when config.offchain_worker_enabled (call Step.build_offchain_workers)
    try_call Step.spawn_tasks

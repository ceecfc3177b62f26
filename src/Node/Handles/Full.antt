-- ===== src/Node/Handles/Full.antt =====
-- `new_full_base` and `new_full` of node/cli/src/service.rs.
use ipci_blockchain.Prelude.{Bool, true, false, not, Option, none, some, List, [], if◌then◌else◌}
use ipci_blockchain.Text.{codes}
use ipci_blockchain.Node.Service.{Configuration, Role, authority, sentry, full, light, discovers}
use ipci_blockchain.Node.Handles.{Handles, DiscoveryRole, GrandpaConfig}
use ipci_blockchain.Node.Handles.Effects.{
  M, ◌>>=◌, ◌>>◌, pure, try, make, unreachable, map_result, when,
}
use ipci_blockchain.Node.Handles.Framework.{Framework, FullFramework}
use ipci_blockchain.Node.Handles.Partial.{PartialComponents, RpcServer, new_partial}

-- `NewFullBase`
pub record NewFullBase (H : Handles) : Type 0 where
  pub task_manager : H.TaskManager
  pub inherent_data_providers : H.InherentDataProviders
  pub client : H.Client
  pub network : H.Network
  pub network_status_sinks : H.NetworkStatusSinks
  pub transaction_pool : H.Pool

module _ (H : Handles) where
  -- the match in the block for the authority discovery; `none` is its `unreachable!`
  unfoldable pub discovery_of :
      Role H.Address → H.KeyStore → Option (List H.Address × DiscoveryRole H)
  discovery_of (authority sentry_nodes) keystore =
      some (sentry_nodes, DiscoveryRole.authority keystore)
  discovery_of sentry keystore = some ([], DiscoveryRole.sentry)
  discovery_of full keystore = none
  discovery_of light keystore = none

  -- the configuration of the finality gadget, with the keystore of an authority only
  unfoldable pub config_of_grandpa : Configuration H.Address → H.KeyStore → GrandpaConfig H
  config_of_grandpa config keystore = record {
    gossip_duration_ms = 333;
    justification_period = 512;
    name = some config.node_name;
    observer_enabled = false;
    keystore = if config.is_authority config.role then some keystore else none;
    is_authority = config.is_network_authority config.role;
  }

module _ {H : Handles} (w : Framework H) (f : FullFramework H) where
  -- the block under `if let Role::Authority`
  unfoldable pub author_blocks :
      Configuration H.Address
      → PartialComponents H
      → H.Network
      → Role H.Address
      → M H.State H.Error (Unit {0})
  author_blocks config p network (authority sentry_nodes) = do
    let proposer = f.proposer_factory p.client p.transaction_pool (w.prometheus_registry config)
    babe ← try (
        f.start_babe (record {
          keystore = p.keystore;
          client = p.client;
          select_chain = p.select_chain;
          env = proposer;
          block_import = p.block_import;
          sync_oracle = network;
          inherent_data_providers = p.inherent_data_providers;
          force_authoring = config.force_authoring;
          babe_link = p.babe_link;
          can_author_with = f.can_author_with_native_version p.client;
        }))
    make (f.spawn p.task_manager true (codes "babe-proposer") babe)
  author_blocks config p network sentry = pure tt
  author_blocks config p network full = pure tt
  author_blocks config p network light = pure tt

  -- the block that spawns the authority discovery, after its match
  unfoldable pub discover :
      Configuration H.Address
      → PartialComponents H
      → H.Network
      → Option (List H.Address × DiscoveryRole H)
      → M H.State H.Error (Unit {0})
  discover config p network (some (sentries, authority_discovery_role)) = do
    let dht_event_stream = f.dht_event_stream network (codes "authority-discovery")
    worker ← make (
        f.new_discovery_worker p.client network sentries dht_event_stream authority_discovery_role
          (w.prometheus_registry config))
    make (f.spawn p.task_manager false (codes "authority-discovery-worker") worker)
  discover config p network none = unreachable

  -- the block under `if enable_grandpa`
  unfoldable pub vote :
      Configuration H.Address
      → PartialComponents H
      → H.Network
      → H.TelemetryConnectionSinks
      → Bool
      → M H.State H.Error (Unit {0})
  vote config p network telemetry true = do
    voter ← try (
        f.run_grandpa_voter (record {
          config = config_of_grandpa H config p.keystore;
          link = p.grandpa_link;
          network = network;
          inherent_data_providers = p.inherent_data_providers;
          telemetry_on_connect = some (f.on_connect_stream telemetry);
          voting_rule = f.voting_rule;
          registry = w.prometheus_registry config;
          shared_voter_state = p.shared_voter_state;
        }))
    make (f.spawn p.task_manager true (codes "grandpa-voter") voter)
  vote config p network telemetry false =
      try (f.setup_disabled_grandpa p.client p.inherent_data_providers network)

  -- `new_full_base`
  unfoldable pub new_full_base :
      RpcServer H
      → Configuration H.Address
      → (H.BabeBlockImport → H.BabeLink → H.State → Unit {0} × H.State)
      → M H.State H.Error (NewFullBase H)
  new_full_base rpc config with_startup_data = do
    p ← new_partial w f rpc config
    n ← try (
        w.build_network (record {
          config = config;
          client = p.client;
          transaction_pool = p.transaction_pool;
          spawn_handle = p.task_manager;
          import_queue = p.import_queue;
          on_demand = none;
          block_announce_validator_builder = none;
          finality_proof_request_builder = none;
          finality_proof_provider = some p.finality_proof_provider;
        }))
    when config.offchain_worker_enabled
        (make (w.build_offchain_workers config p.backend p.task_manager p.client n.network))
    let telemetry_connection_sinks = w.telemetry_connection_sinks
    rpc_handlers ← try (
        w.spawn_tasks (record {
          config = config;
          backend = p.backend;
          client = p.client;
          keystore = p.keystore;
          network = n.network;
          rpc_extensions_builder = p.rpc_extensions_builder;
          transaction_pool = p.transaction_pool;
          task_manager = p.task_manager;
          on_demand = none;
          remote_blockchain = none;
          telemetry_connection_sinks = telemetry_connection_sinks;
          network_status_sinks = n.network_status_sinks;
          system_rpc_tx = n.system_rpc_tx;
        }))
    make (with_startup_data p.block_import p.babe_link)
    author_blocks config p n.network config.role
    when (discovers config.role)
        (discover config p n.network (discovery_of H config.role p.keystore))
    vote config p n.network telemetry_connection_sinks (not config.disable_grandpa)
    make (w.start_network n.network_starter)
    pure (record {
      task_manager = p.task_manager;
      inherent_data_providers = p.inherent_data_providers;
      client = p.client;
      network = n.network;
      network_status_sinks = n.network_status_sinks;
      transaction_pool = p.transaction_pool;
    })

  -- `new_full`
  unfoldable pub new_full : RpcServer H → Configuration H.Address → M H.State H.Error H.TaskManager
  new_full rpc config =
      map_result (λ b. b.task_manager)
        (new_full_base rpc config (λ block_import babe_link s. (tt, s)))

-- ===== src/Node/Tests/Handles.antt =====
-- The handles of a process that keeps the calls of the framework: their types are all numbers.
use ipci_blockchain.Prelude.{ℕ, ◌≡◌, refl, Bool, Option}
use ipci_blockchain.Text.{Text}
use ipci_blockchain.Node.Rpc.{Types}
use ipci_blockchain.Node.Handles.{
  Handles, ImportQueueParams, BuildNetworkParams, NetworkParts, SpawnTasksParams, BabeParams,
  DiscoveryRole, GrandpaConfig, GrandpaParams,
}
use ipci_blockchain.Node.Handles.Calls.{Call}

abbrev types : Types
types = record {
  Client = ℕ;
  Pool = ℕ;
  SelectChain = ℕ;
  DenyUnsafe = Bool;
  Config = ℕ;
  SharedEpochChanges = ℕ;
  KeyStore = ℕ;
  SharedVoterState = ℕ;
  SharedAuthoritySet = ℕ;
  JustificationStream = ℕ;
  SubscriptionExecutor = ℕ;
  FinalityProvider = ℕ;
  RemoteBlockchain = ℕ;
  Fetcher = ℕ;
}

abbrev pub handles : Type 0 → Handles
handles T = record {
  rpc = types;
  Address = ℕ;
  Io = Text → Option ℕ;
  Backend = ℕ;
  TaskManager = ℕ;
  GrandpaBlockImport = ℕ;
  GrandpaLink = ℕ;
  BabeBlockImport = ℕ;
  BabeLink = ℕ;
  InherentDataProviders = ℕ;
  CanAuthorWith = ℕ;
  ImportQueue = ℕ;
  Registry = ℕ;
  BlockAnnounceValidatorBuilder = ℕ;
  FinalityProofRequestBuilder = ℕ;
  Network = ℕ;
  NetworkStatusSinks = ℕ;
  SystemRpcTx = ℕ;
  NetworkStarter = ℕ;
  TelemetryConnectionSinks = ℕ;
  RpcHandlers = ℕ;
  ProposerFactory = ℕ;
  EventStream = ℕ;
  VotingRule = ℕ;
  Task = ℕ;
  Error = ℕ;
  State = T;
}

-- The handles say nothing of what the process keeps, so the records of arguments and the calls are the
-- same for a process that keeps something else.
abbrev import_queue_params :
    {A B : Type 0} → ImportQueueParams (handles A) → ImportQueueParams (handles B)
import_queue_params q = record {
  babe_link = q.babe_link;
  block_import = q.block_import;
  justification_import = q.justification_import;
  finality_proof_import = q.finality_proof_import;
  client = q.client;
  select_chain = q.select_chain;
  inherent_data_providers = q.inherent_data_providers;
  spawn_handle = q.spawn_handle;
  registry = q.registry;
  can_author_with = q.can_author_with;
}

abbrev build_network_params :
    {A B : Type 0} → BuildNetworkParams (handles A) → BuildNetworkParams (handles B)
build_network_params q = record {
  config = q.config;
  client = q.client;
  transaction_pool = q.transaction_pool;
  spawn_handle = q.spawn_handle;
  import_queue = q.import_queue;
  on_demand = q.on_demand;
  block_announce_validator_builder = q.block_announce_validator_builder;
  finality_proof_request_builder = q.finality_proof_request_builder;
  finality_proof_provider = q.finality_proof_provider;
}

abbrev network_parts : {A B : Type 0} → NetworkParts (handles A) → NetworkParts (handles B)
network_parts q = record {
  network = q.network;
  network_status_sinks = q.network_status_sinks;
  system_rpc_tx = q.system_rpc_tx;
  network_starter = q.network_starter;
}

abbrev spawn_tasks_params :
    {A B : Type 0} → SpawnTasksParams (handles A) → SpawnTasksParams (handles B)
spawn_tasks_params q = record {
  config = q.config;
  backend = q.backend;
  client = q.client;
  keystore = q.keystore;
  network = q.network;
  rpc_extensions_builder = q.rpc_extensions_builder;
  transaction_pool = q.transaction_pool;
  task_manager = q.task_manager;
  on_demand = q.on_demand;
  remote_blockchain = q.remote_blockchain;
  telemetry_connection_sinks = q.telemetry_connection_sinks;
  network_status_sinks = q.network_status_sinks;
  system_rpc_tx = q.system_rpc_tx;
}

abbrev babe_params : {A B : Type 0} → BabeParams (handles A) → BabeParams (handles B)
babe_params q = record {
  keystore = q.keystore;
  client = q.client;
  select_chain = q.select_chain;
  env = q.env;
  block_import = q.block_import;
  sync_oracle = q.sync_oracle;
  inherent_data_providers = q.inherent_data_providers;
  force_authoring = q.force_authoring;
  babe_link = q.babe_link;
  can_author_with = q.can_author_with;
}

abbrev grandpa_config : {A B : Type 0} → GrandpaConfig (handles A) → GrandpaConfig (handles B)
grandpa_config q = record {
  gossip_duration_ms = q.gossip_duration_ms;
  justification_period = q.justification_period;
  name = q.name;
  observer_enabled = q.observer_enabled;
  keystore = q.keystore;
  is_authority = q.is_authority;
}

abbrev grandpa_params : {A B : Type 0} → GrandpaParams (handles A) → GrandpaParams (handles B)
grandpa_params q = record {
  config = grandpa_config q.config;
  link = q.link;
  network = q.network;
  inherent_data_providers = q.inherent_data_providers;
  telemetry_on_connect = q.telemetry_on_connect;
  voting_rule = q.voting_rule;
  registry = q.registry;
  shared_voter_state = q.shared_voter_state;
}

abbrev discovery_role : {A B : Type 0} → DiscoveryRole (handles A) → DiscoveryRole (handles B)
discovery_role (DiscoveryRole.authority keystore) = DiscoveryRole.authority keystore
discovery_role DiscoveryRole.sentry = DiscoveryRole.sentry

abbrev pub as_call : {A B : Type 0} → Call (handles A) → Call (handles B)
as_call (Call.new_full_parts c made) = Call.new_full_parts c made
as_call (Call.new_full_pool c registry task_manager client pool) =
    Call.new_full_pool c registry task_manager client pool
as_call (Call.grandpa_block_import client chain made) = Call.grandpa_block_import client chain made
as_call (Call.get_or_compute client made) = Call.get_or_compute client made
as_call (Call.babe_block_import c block_import client made) =
    Call.babe_block_import c block_import client made
as_call (Call.import_queue q made) = Call.import_queue (import_queue_params q) made
as_call (Call.build_network q made) =
    Call.build_network (build_network_params q) (network_parts made)
as_call (Call.build_offchain_workers c backend task_manager client network) =
    Call.build_offchain_workers c backend task_manager client network
as_call (Call.spawn_tasks q) = Call.spawn_tasks (spawn_tasks_params q)
as_call (Call.start_babe q task) = Call.start_babe (babe_params q) task
as_call (Call.new_discovery_worker client network sentries events role registry task) =
    Call.new_discovery_worker client network sentries events (discovery_role role) registry task
as_call (Call.run_grandpa_voter q task) = Call.run_grandpa_voter (grandpa_params q) task
as_call (Call.setup_disabled_grandpa client providers network) =
    Call.setup_disabled_grandpa client providers network
as_call (Call.spawn task_manager essential name task) = Call.spawn task_manager essential name task
as_call (Call.start_network starter) = Call.start_network starter
as_call (Call.refused e) = Call.refused e

pub as_call-as_call :
    {A : Type 0} (B : Type 0) (c : Call (handles A)) → as_call {A = B} (as_call c) ≡ c
as_call-as_call B (Call.new_full_parts c made) = refl
as_call-as_call B (Call.new_full_pool c registry task_manager client pool) = refl
as_call-as_call B (Call.grandpa_block_import client chain made) = refl
as_call-as_call B (Call.get_or_compute client made) = refl
as_call-as_call B (Call.babe_block_import c block_import client made) = refl
as_call-as_call B (Call.import_queue q made) = refl
as_call-as_call B (Call.build_network q made) = refl
as_call-as_call B (Call.build_offchain_workers c backend task_manager client network) = refl
as_call-as_call B (Call.spawn_tasks q) = refl
as_call-as_call B (Call.start_babe q task) = refl
as_call-as_call B
      (Call.new_discovery_worker client network sentries events
        (DiscoveryRole.authority keystore)
        registry
        task) =
    refl
as_call-as_call B
      (Call.new_discovery_worker client network sentries events DiscoveryRole.sentry registry
        task) =
    refl
as_call-as_call B (Call.run_grandpa_voter q task) = refl
as_call-as_call B (Call.setup_disabled_grandpa client providers network) = refl
as_call-as_call B (Call.spawn task_manager essential name task) = refl
as_call-as_call B (Call.start_network starter) = refl
as_call-as_call B (Call.refused e) = refl

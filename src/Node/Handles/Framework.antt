-- ===== src/Node/Handles/Framework.antt =====
-- What node/cli/src/service.rs calls, with the handles that it passes and gets. The framework's
-- constructors and getters of handles are functions; its other calls may change the process.
use ipci_blockchain.Prelude.{Bool, Option, List}
use ipci_blockchain.Text.{Text}
use ipci_blockchain.Node.Service.{Configuration}
use ipci_blockchain.Node.Handles.{
  Handles, Tries, Makes, ImportQueueParams, BuildNetworkParams, NetworkParts, SpawnTasksParams,
  BabeParams, DiscoveryRole, GrandpaParams,
}

-- what the full and the light node both call
pub record Framework (H : Handles) : Type 0 where
  pub prometheus_registry : Configuration H.Address → Option H.Registry
  -- `LongestChain::new`
  pub longest_chain : H.Backend → H.SelectChain
  -- `sc_consensus_babe::Config::get_or_compute` and `block_import`
  pub get_or_compute : H.Client → Tries H H.Config
  pub babe_block_import :
      H.Config → H.GrandpaBlockImport → H.Client → Tries H (H.BabeBlockImport × H.BabeLink)
  -- `InherentDataProviders::new`
  pub inherent_data_providers : H.InherentDataProviders
  pub import_queue : ImportQueueParams H → Tries H H.ImportQueue
  -- `GrandpaFinalityProofProvider::new_for_service`
  pub finality_proof_provider : H.Backend → H.Client → H.FinalityProvider
  pub build_network : BuildNetworkParams H → Tries H (NetworkParts H)
  pub build_offchain_workers :
      Configuration H.Address
      → H.Backend
      → H.TaskManager
      → H.Client
      → H.Network
      → Makes H (Unit {0})
  -- `TelemetryConnectionSinks::default`
  pub telemetry_connection_sinks : H.TelemetryConnectionSinks
  pub spawn_tasks : SpawnTasksParams H → Tries H H.RpcHandlers
  pub start_network : H.NetworkStarter → Makes H (Unit {0})

-- what only the full node calls
pub record FullFramework (H : Handles) : Type 0 where
  pub new_full_parts :
      Configuration H.Address → Tries H (H.Client × H.Backend × H.KeyStore × H.TaskManager)
  -- `BasicPool::new_full`, with the options of the pool in the configuration
  pub new_full_pool :
      Configuration H.Address → Option H.Registry → H.TaskManager → H.Client → Makes H H.Pool
  -- `grandpa::block_import`
  pub grandpa_block_import :
      H.Client → H.SelectChain → Tries H (H.GrandpaBlockImport × H.GrandpaLink)
  -- `CanAuthorWithNativeVersion::new` of the client's executor
  pub can_author_with_native_version : H.Client → H.CanAuthorWith
  pub justification_stream : H.GrandpaLink → H.JustificationStream
  pub shared_authority_set : H.GrandpaLink → H.SharedAuthoritySet
  -- `SharedVoterState::empty`
  pub empty_voter_state : H.SharedVoterState
  pub babe_config : H.BabeLink → H.Config
  pub epoch_changes : H.BabeLink → H.SharedEpochChanges
  -- `ProposerFactory::new`
  pub proposer_factory : H.Client → H.Pool → Option H.Registry → H.ProposerFactory
  pub start_babe : BabeParams H → Tries H H.Task
  -- `spawn_handle` or `spawn_essential_handle`, for an essential task, with `spawn` or `spawn_blocking`
  pub spawn : H.TaskManager → Bool → Text → H.Task → Makes H (Unit {0})
  -- `event_stream` of the network under a name, of which only the DHT's events are kept
  pub dht_event_stream : H.Network → Text → H.EventStream
  -- the worker of `new_worker_and_service`
  pub new_discovery_worker :
      H.Client
      → H.Network
      → List H.Address
      → H.EventStream
      → DiscoveryRole H
      → Option H.Registry
      → Makes H H.Task
  pub on_connect_stream : H.TelemetryConnectionSinks → H.EventStream
  -- `VotingRulesBuilder::default().build()`
  pub voting_rule : H.VotingRule
  pub run_grandpa_voter : GrandpaParams H → Tries H H.Task
  pub setup_disabled_grandpa : H.Client → H.InherentDataProviders → H.Network → Tries H (Unit {0})

-- what only the light node calls
pub record LightFramework (H : Handles) : Type 0 where
  pub new_light_parts :
      Configuration H.Address
      → Tries H (H.Client × H.Backend × H.KeyStore × H.TaskManager × H.Fetcher)
  -- `BasicPool::new_light`
  pub new_light_pool :
      Configuration H.Address
      → Option H.Registry
      → H.TaskManager
      → H.Client
      → H.Fetcher
      → Makes H H.Pool
  -- `grandpa::light_block_import`, with the checker of the fetcher
  pub light_block_import : H.Client → H.Backend → H.Fetcher → Tries H H.GrandpaBlockImport
  pub create_finality_proof_request_builder : H.GrandpaBlockImport → H.FinalityProofRequestBuilder
  pub never_can_author : H.CanAuthorWith
  pub remote_blockchain : H.Backend → H.RemoteBlockchain

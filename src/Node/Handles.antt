-- ===== src/Node/Handles.antt =====
-- The handles that node/cli/src/service.rs passes between the calls of the framework: their types, the
-- records of arguments, and what a call is. The assembly that keeps them is in the children.
pub mod Effects
pub mod Framework
pub mod Partial
pub mod Full
pub mod Light
pub mod Calls
pub mod Kept
pub mod Wired
pub mod Starts
pub mod Parts
pub mod OneNode
use ipci_blockchain.Prelude.{ℕ, Bool, Option, none, some, List}
use ipci_blockchain.Text.{Text, Result, ok, err}
use ipci_blockchain.Node.Service.{Configuration}
use ipci_blockchain.Node.Rpc.{Types}

-- the types of the framework's handles, with those that the RPC handlers are made of
pub record Handles : Type 1 where
  pub rpc : Types
  pub open rpc use *
  pub Address : Type 0
  pub Io : Type 0
  pub Backend : Type 0
  pub TaskManager : Type 0
  pub GrandpaBlockImport : Type 0
  pub GrandpaLink : Type 0
  pub BabeBlockImport : Type 0
  pub BabeLink : Type 0
  pub InherentDataProviders : Type 0
  pub CanAuthorWith : Type 0
  pub ImportQueue : Type 0
  pub Registry : Type 0
  pub BlockAnnounceValidatorBuilder : Type 0
  pub FinalityProofRequestBuilder : Type 0
  pub Network : Type 0
  pub NetworkStatusSinks : Type 0
  pub SystemRpcTx : Type 0
  pub NetworkStarter : Type 0
  pub TelemetryConnectionSinks : Type 0
  pub RpcHandlers : Type 0
  pub ProposerFactory : Type 0
  pub EventStream : Type 0
  pub VotingRule : Type 0
  pub Task : Type 0
  -- the errors, `ServiceError`, and the state of the process
  pub Error : Type 0
  pub State : Type 0

module _ (H : Handles) where
  -- a call of the framework that can fail, and one that cannot
  abbrev pub Tries : Type 0 → Type 0
  Tries A = H.State → Result H.Error A × H.State

  abbrev pub Makes : Type 0 → Type 0
  Makes A = H.State → A × H.State

  -- the arguments of `sc_consensus_babe::import_queue`
  pub record ImportQueueParams : Type 0 where
    pub babe_link : H.BabeLink
    pub block_import : H.BabeBlockImport
    pub justification_import : Option H.GrandpaBlockImport
    pub finality_proof_import : Option H.GrandpaBlockImport
    pub client : H.Client
    pub select_chain : H.SelectChain
    pub inherent_data_providers : H.InherentDataProviders
    pub spawn_handle : H.TaskManager
    pub registry : Option H.Registry
    pub can_author_with : H.CanAuthorWith

  -- `BuildNetworkParams`
  pub record BuildNetworkParams : Type 0 where
    pub config : Configuration H.Address
    pub client : H.Client
    pub transaction_pool : H.Pool
    pub spawn_handle : H.TaskManager
    pub import_queue : H.ImportQueue
    pub on_demand : Option H.Fetcher
    pub block_announce_validator_builder : Option H.BlockAnnounceValidatorBuilder
    pub finality_proof_request_builder : Option H.FinalityProofRequestBuilder
    pub finality_proof_provider : Option H.FinalityProvider

  -- what `build_network` returns
  pub record NetworkParts : Type 0 where
    pub network : H.Network
    pub network_status_sinks : H.NetworkStatusSinks
    pub system_rpc_tx : H.SystemRpcTx
    pub network_starter : H.NetworkStarter

  -- `SpawnTasksParams`
  pub record SpawnTasksParams : Type 0 where
    pub config : Configuration H.Address
    pub backend : H.Backend
    pub client : H.Client
    pub keystore : H.KeyStore
    pub network : H.Network
    pub rpc_extensions_builder : H.DenyUnsafe → H.SubscriptionExecutor → H.Io
    pub transaction_pool : H.Pool
    pub task_manager : H.TaskManager
    pub on_demand : Option H.Fetcher
    pub remote_blockchain : Option H.RemoteBlockchain
    pub telemetry_connection_sinks : H.TelemetryConnectionSinks
    pub network_status_sinks : H.NetworkStatusSinks
    pub system_rpc_tx : H.SystemRpcTx

  -- `BabeParams`
  pub record BabeParams : Type 0 where
    pub keystore : H.KeyStore
    pub client : H.Client
    pub select_chain : H.SelectChain
    pub env : H.ProposerFactory
    pub block_import : H.BabeBlockImport
    pub sync_oracle : H.Network
    pub inherent_data_providers : H.InherentDataProviders
    pub force_authoring : Bool
    pub babe_link : H.BabeLink
    pub can_author_with : H.CanAuthorWith

  -- `sc_authority_discovery::Role`
  pub data DiscoveryRole : Type 0 where
    authority : H.KeyStore → DiscoveryRole
    sentry : DiscoveryRole

  -- `grandpa::Config`, with the gossip duration in milliseconds
  pub record GrandpaConfig : Type 0 where
    pub gossip_duration_ms : ℕ
    pub justification_period : ℕ
    pub name : Option Text
    pub observer_enabled : Bool
    pub keystore : Option H.KeyStore
    pub is_authority : Bool

  -- `GrandpaParams`
  pub record GrandpaParams : Type 0 where
    pub config : GrandpaConfig
    pub link : H.GrandpaLink
    pub network : H.Network
    pub inherent_data_providers : H.InherentDataProviders
    pub telemetry_on_connect : Option H.EventStream
    pub voting_rule : H.VotingRule
    pub registry : Option H.Registry
    pub shared_voter_state : H.SharedVoterState

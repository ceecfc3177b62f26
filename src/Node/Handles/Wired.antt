-- ===== src/Node/Handles/Wired.antt =====
-- Which handles node/cli/src/service.rs gives to the calls of the framework for a full node.
use ipci_blockchain.Prelude.{true, not, Option, none, some, List, [], ◌∷◌, ◌≡◌, if◌then◌else◌}
use ipci_blockchain.Node.Service.{Configuration, discovers}
use ipci_blockchain.Node.Handles.{Handles, NetworkParts}
use ipci_blockchain.Node.Handles.Calls.{Call}
use ipci_blockchain.Node.Handles.Framework.{Framework, FullFramework}
use ipci_blockchain.Node.Handles.Full.{NewFullBase, discovery_of}
use ipci_blockchain.Node.Handles.Partial.{PartialComponents}
use ipci_blockchain.Node.Handles.Starts.{Services, Starts, nothing, is_authority_role}

abbrev pub Each : {A : Type 0} → (A → Type 0) → List A → Type 0
Each P [] = Unit
Each P (x ∷ xs) = P x × Each P xs

-- the handles of one full node
pub record Node (H : Handles) : Type 0 where
  pub parts : PartialComponents H
  pub grandpa_import : H.GrandpaBlockImport
  pub babe_config : H.Config
  pub network : NetworkParts H

-- the handles that a full node hands over, but for the network those of `new_partial`
module _ {H : Handles} (w : Framework H) (f : FullFramework H)
    (config : Configuration H.Address) where
  -- the keystore reaches the finality gadget of an authority only
  abbrev pub voter_keystore : H.KeyStore → Option H.KeyStore
  voter_keystore keystore = if config.is_authority config.role then some keystore else none

  -- The call was given the handles of this node, and what it returned is one of them.
  abbrev pub Wired : Node H → Call H → Type 0
  Wired x (Call.new_full_parts c made) =
      (c ≡ config)
      × (made ≡ (x.parts.client, x.parts.backend, x.parts.keystore, x.parts.task_manager))
  Wired x (Call.new_full_pool c registry task_manager client pool) =
      (registry ≡ w.prometheus_registry config)
      × (task_manager ≡ x.parts.task_manager)
      × (client ≡ x.parts.client)
      × (pool ≡ x.parts.transaction_pool)
  Wired x (Call.grandpa_block_import client select_chain made) =
      (client ≡ x.parts.client)
      × (select_chain ≡ w.longest_chain x.parts.backend)
      × (made ≡ (x.grandpa_import, x.parts.grandpa_link))
  Wired x (Call.get_or_compute client made) = (client ≡ x.parts.client) × (made ≡ x.babe_config)
  Wired x (Call.babe_block_import c block_import client made) =
      (c ≡ x.babe_config)
      × (block_import ≡ x.grandpa_import)
      × (client ≡ x.parts.client)
      × (made ≡ (x.parts.block_import, x.parts.babe_link))
  Wired x (Call.import_queue q made) =
      (q.block_import ≡ x.parts.block_import)
      × (q.babe_link ≡ x.parts.babe_link)
      × (q.justification_import ≡ some x.grandpa_import)
      × (q.finality_proof_import ≡ none)
      × (q.client ≡ x.parts.client)
      × (q.select_chain ≡ x.parts.select_chain)
      × (q.inherent_data_providers ≡ x.parts.inherent_data_providers)
      × (q.spawn_handle ≡ x.parts.task_manager)
      × (q.can_author_with ≡ f.can_author_with_native_version x.parts.client)
      × (made ≡ x.parts.import_queue)
  Wired x (Call.build_network q made) =
      (q.client ≡ x.parts.client)
      × (q.transaction_pool ≡ x.parts.transaction_pool)
      × (q.spawn_handle ≡ x.parts.task_manager)
      × (q.import_queue ≡ x.parts.import_queue)
      × (q.on_demand ≡ none)
      × (q.finality_proof_provider ≡ some x.parts.finality_proof_provider)
      × (q.block_announce_validator_builder ≡ none)
      × (q.finality_proof_request_builder ≡ none)
      × (made ≡ x.network)
  Wired x (Call.build_offchain_workers c backend task_manager client network) =
      (backend ≡ x.parts.backend)
      × (task_manager ≡ x.parts.task_manager)
      × (client ≡ x.parts.client)
      × (network ≡ x.network.network)
  Wired x (Call.spawn_tasks q) =
      (q.client ≡ x.parts.client)
      × (q.backend ≡ x.parts.backend)
      × (q.keystore ≡ x.parts.keystore)
      × (q.network ≡ x.network.network)
      × (q.rpc_extensions_builder ≡ x.parts.rpc_extensions_builder)
      × (q.transaction_pool ≡ x.parts.transaction_pool)
      × (q.task_manager ≡ x.parts.task_manager)
      × (q.on_demand ≡ none)
      × (q.remote_blockchain ≡ none)
      × (q.telemetry_connection_sinks ≡ w.telemetry_connection_sinks)
      × (q.network_status_sinks ≡ x.network.network_status_sinks)
      × (q.system_rpc_tx ≡ x.network.system_rpc_tx)
  Wired x (Call.start_babe q task) =
      (q.keystore ≡ x.parts.keystore)
      × (q.client ≡ x.parts.client)
      × (q.select_chain ≡ x.parts.select_chain)
      × (q.env
          ≡ f.proposer_factory x.parts.client x.parts.transaction_pool
              (w.prometheus_registry config))
      × (q.block_import ≡ x.parts.block_import)
      × (q.sync_oracle ≡ x.network.network)
      × (q.inherent_data_providers ≡ x.parts.inherent_data_providers)
      × (q.force_authoring ≡ config.force_authoring)
      × (q.babe_link ≡ x.parts.babe_link)
      × (q.can_author_with ≡ f.can_author_with_native_version x.parts.client)
  Wired x (Call.new_discovery_worker client network sentries events role registry task) =
      (client ≡ x.parts.client)
      × (network ≡ x.network.network)
      × (discovery_of H config.role x.parts.keystore ≡ some (sentries, role))
      × (registry ≡ w.prometheus_registry config)
  Wired x (Call.run_grandpa_voter q task) =
      (q.link ≡ x.parts.grandpa_link)
      × (q.network ≡ x.network.network)
      × (q.inherent_data_providers ≡ x.parts.inherent_data_providers)
      × (q.telemetry_on_connect ≡ some (f.on_connect_stream w.telemetry_connection_sinks))
      × (q.shared_voter_state ≡ x.parts.shared_voter_state)
      × (q.registry ≡ w.prometheus_registry config)
      × (q.config.is_authority ≡ config.is_network_authority config.role)
      × (q.config.keystore ≡ voter_keystore x.parts.keystore)
  Wired x (Call.setup_disabled_grandpa client providers network) =
      (client ≡ x.parts.client)
      × (providers ≡ x.parts.inherent_data_providers)
      × (network ≡ x.network.network)
  Wired x (Call.spawn task_manager essential name task) = task_manager ≡ x.parts.task_manager
  Wired x (Call.start_network starter) = starter ≡ x.network.network_starter
  Wired x (Call.refused e) = ⊥

  -- the components that a caller gets are those of the node
  abbrev pub IsBase : Node H → NewFullBase H → Type 0
  IsBase x b =
      (b.task_manager ≡ x.parts.task_manager)
      × (b.inherent_data_providers ≡ x.parts.inherent_data_providers)
      × (b.client ≡ x.parts.client)
      × (b.network ≡ x.network.network)
      × (b.network_status_sinks ≡ x.network.network_status_sinks)
      × (b.transaction_pool ≡ x.parts.transaction_pool)

  -- what the parts have that no call is made for
  abbrev pub IsMade : PartialComponents H → Type 0
  IsMade p =
      (p.select_chain ≡ w.longest_chain p.backend)
      × (p.finality_proof_provider ≡ w.finality_proof_provider p.backend p.client)
      × (p.inherent_data_providers ≡ w.inherent_data_providers)
      × (p.shared_voter_state ≡ f.empty_voter_state)

  -- what the role and the settings ask for
  abbrev pub services : Services
  services = record {
    proposer = is_authority_role config.role;
    discovery = discovers config.role;
    voter = not config.disable_grandpa;
    disabled = config.disable_grandpa;
    offchain = config.offchain_worker_enabled;
    network = true;
  }

  -- One node explains all the calls, it is the one that is returned, and its services are started.
  abbrev pub OneNode : NewFullBase H → List (Call H) → Type 0
  OneNode b made =
      (x : Node H) × IsBase x b × IsMade x.parts × Each (Wired x) made × Starts services made

  -- the same of the calls for the parts, whatever the network will be
  abbrev pub PartsOf : PartialComponents H → List (Call H) → Type 0
  PartsOf p made =
      (grandpa_import : H.GrandpaBlockImport) × (babe_config : H.Config) × IsMade p
      × Starts nothing made
      × ((network : NetworkParts H)
          → Each
              (Wired (record {
                parts = p;
                grandpa_import = grandpa_import;
                babe_config = babe_config;
                network = network;
              }))
              made)

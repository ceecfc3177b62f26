-- ===== src/Node/Handles/Partial.antt =====
-- `new_partial` of node/cli/src/service.rs.
use ipci_blockchain.Prelude.{none, some}
use ipci_blockchain.Node.Service.{Configuration}
use ipci_blockchain.Node.Rpc.{IoHandler, Extensions}
use ipci_blockchain.Node.Rpc.Builder.{rpc_extensions_builder}
use ipci_blockchain.Node.Handles.{Handles}
use ipci_blockchain.Node.Handles.Effects.{M, ◌>>=◌, pure, try, make}
use ipci_blockchain.Node.Handles.Framework.{Framework, FullFramework}

-- `PartialComponents`, with the tuples of its field `other`
pub record PartialComponents (H : Handles) : Type 0 where
  pub client : H.Client
  pub backend : H.Backend
  pub task_manager : H.TaskManager
  pub keystore : H.KeyStore
  pub select_chain : H.SelectChain
  pub import_queue : H.ImportQueue
  pub transaction_pool : H.Pool
  pub inherent_data_providers : H.InherentDataProviders
  pub rpc_extensions_builder : H.DenyUnsafe → H.SubscriptionExecutor → H.Io
  pub block_import : H.BabeBlockImport
  pub grandpa_link : H.GrandpaLink
  pub babe_link : H.BabeLink
  pub shared_voter_state : H.SharedVoterState
  pub finality_proof_provider : H.FinalityProvider

-- the RPC handler of the process, whose type is that of the assembly
pub record RpcServer (H : Handles) : Type 1 where
  pub Method : Type 0
  pub handler : IoHandler Method
  pub extensions : Extensions H.rpc Method
  pub io : handler.Io → H.Io

module _ {H : Handles} (w : Framework H) (f : FullFramework H) (rpc : RpcServer H) where
  -- `new_partial`
  unfoldable pub new_partial : Configuration H.Address → M H.State H.Error (PartialComponents H)
  new_partial config = do
    (client, backend, keystore, task_manager) ← try (f.new_full_parts config)
    let select_chain = w.longest_chain backend
    transaction_pool ←
        make (f.new_full_pool config (w.prometheus_registry config) task_manager client)
    (grandpa_block_import, grandpa_link) ← try (f.grandpa_block_import client select_chain)
    let justification_import = grandpa_block_import
    config_of_babe ← try (w.get_or_compute client)
    (block_import, babe_link) ← try (w.babe_block_import config_of_babe grandpa_block_import client)
    let inherent_data_providers = w.inherent_data_providers
    import_queue ← try (
        w.import_queue (record {
          babe_link = babe_link;
          block_import = block_import;
          justification_import = some justification_import;
          finality_proof_import = none;
          client = client;
          select_chain = select_chain;
          inherent_data_providers = inherent_data_providers;
          spawn_handle = task_manager;
          registry = w.prometheus_registry config;
          can_author_with = f.can_author_with_native_version client;
        }))
    let shared_voter_state = f.empty_voter_state
    let finality_proof_provider = w.finality_proof_provider backend client
    let builder = rpc_extensions_builder rpc.handler rpc.extensions (record {
      client = client;
      transaction_pool = transaction_pool;
      select_chain = select_chain;
      keystore = keystore;
      justification_stream = f.justification_stream grandpa_link;
      shared_authority_set = f.shared_authority_set grandpa_link;
      shared_voter_state = shared_voter_state;
      finality_proof_provider = finality_proof_provider;
      babe_config = f.babe_config babe_link;
      shared_epoch_changes = f.epoch_changes babe_link;
    })
    pure (record {
      client = client;
      backend = backend;
      task_manager = task_manager;
      keystore = keystore;
      select_chain = select_chain;
      import_queue = import_queue;
      transaction_pool = transaction_pool;
      inherent_data_providers = inherent_data_providers;
      rpc_extensions_builder =
          λ deny_unsafe subscription_executor. rpc.io (builder deny_unsafe subscription_executor);
      block_import = block_import;
      grandpa_link = grandpa_link;
      babe_link = babe_link;
      shared_voter_state = shared_voter_state;
      finality_proof_provider = finality_proof_provider;
    })

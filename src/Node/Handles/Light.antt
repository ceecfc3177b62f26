-- ===== src/Node/Handles/Light.antt =====
-- `new_light_base` and `new_light` of node/cli/src/service.rs.
use ipci_blockchain.Prelude.{none, some}
use ipci_blockchain.Node.Service.{Configuration}
use ipci_blockchain.Node.Rpc.Builder.{rpc_extensions}
use ipci_blockchain.Node.Handles.{Handles}
use ipci_blockchain.Node.Handles.Effects.{M, ◌>>=◌, ◌>>◌, pure, try, make, map_result, when}
use ipci_blockchain.Node.Handles.Framework.{Framework, LightFramework}
use ipci_blockchain.Node.Handles.Partial.{RpcServer}

-- the tuple that `new_light_base` returns
pub record NewLightBase (H : Handles) : Type 0 where
  pub task_manager : H.TaskManager
  pub rpc_handlers : H.RpcHandlers
  pub client : H.Client
  pub network : H.Network
  pub transaction_pool : H.Pool

module _ {H : Handles} (w : Framework H) (l : LightFramework H) (rpc : RpcServer H) where
  -- `new_light_base`
  unfoldable pub new_light_base : Configuration H.Address → M H.State H.Error (NewLightBase H)
  new_light_base config = do
    (client, backend, keystore, task_manager, on_demand) ← try (l.new_light_parts config)
    let select_chain = w.longest_chain backend
    transaction_pool ←
        make (l.new_light_pool config (w.prometheus_registry config) task_manager client on_demand)
    grandpa_block_import ← try (l.light_block_import client backend on_demand)
    let finality_proof_import = grandpa_block_import
    let finality_proof_request_builder =
        l.create_finality_proof_request_builder finality_proof_import
    config_of_babe ← try (w.get_or_compute client)
    (babe_block_import, babe_link) ←
        try (w.babe_block_import config_of_babe grandpa_block_import client)
    import_queue ← try (
        w.import_queue (record {
          babe_link = babe_link;
          block_import = babe_block_import;
          justification_import = none;
          finality_proof_import = some finality_proof_import;
          client = client;
          select_chain = select_chain;
          inherent_data_providers = w.inherent_data_providers;
          spawn_handle = task_manager;
          registry = w.prometheus_registry config;
          can_author_with = l.never_can_author;
        }))
    n ← try (
        w.build_network (record {
          config = config;
          client = client;
          transaction_pool = transaction_pool;
          spawn_handle = task_manager;
          import_queue = import_queue;
          on_demand = some on_demand;
          block_announce_validator_builder = none;
          finality_proof_request_builder = some finality_proof_request_builder;
          finality_proof_provider = some (w.finality_proof_provider backend client);
        }))
    make (w.start_network n.network_starter)
    when config.offchain_worker_enabled
        (make (w.build_offchain_workers config backend task_manager client n.network))
    let extensions = rpc_extensions rpc.handler rpc.extensions (record {
      client = client;
      transaction_pool = transaction_pool;
      remote_blockchain = l.remote_blockchain backend;
      on_demand = on_demand;
    })
    rpc_handlers ← try (
        w.spawn_tasks (record {
          config = config;
          backend = backend;
          client = client;
          keystore = keystore;
          network = n.network;
          rpc_extensions_builder = λ deny_unsafe subscription_executor. rpc.io extensions;
          transaction_pool = transaction_pool;
          task_manager = task_manager;
          on_demand = some on_demand;
          remote_blockchain = some (l.remote_blockchain backend);
          telemetry_connection_sinks = w.telemetry_connection_sinks;
          network_status_sinks = n.network_status_sinks;
          system_rpc_tx = n.system_rpc_tx;
        }))
    pure (record {
      task_manager = task_manager;
      rpc_handlers = rpc_handlers;
      client = client;
      network = n.network;
      transaction_pool = transaction_pool;
    })

  -- `new_light`
  unfoldable pub new_light : Configuration H.Address → M H.State H.Error H.TaskManager
  new_light config = map_result (λ b. b.task_manager) (new_light_base config)

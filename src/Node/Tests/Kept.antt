-- ===== src/Node/Tests/Kept.antt =====
-- The assembly of a node with handles, in a process that keeps the calls of the framework.
use ipci_blockchain.Prelude.{ℕ, ◌+◌, refl, Option, none, List, [], ◌∷◌, ◌++◌, map}
use ipci_blockchain.Prelude.Options.{or_else}
use ipci_blockchain.Text.{Text, Result, ok}
use ipci_blockchain.Node.Rpc.{Delegate}
use ipci_blockchain.Node.Handles.{Handles, NetworkParts}
use ipci_blockchain.Node.Handles.Calls.{Call}
use ipci_blockchain.Node.Handles.Framework.{Framework, FullFramework}
use ipci_blockchain.Node.Handles.Partial.{RpcServer}
use ipci_blockchain.Node.Handles.Wired.{OneNode}
use ipci_blockchain.Node.Tests.Handles.{handles, as_call}

-- The process keeps the calls, and every handle is a number.
abbrev process : Handles
process = handles (List (Call (handles Unit)))

abbrev calls : process.State → List (Call process)
calls s = map as_call s

abbrev keep : Call process → process.State → process.State
keep c s = s ++ as_call c ∷ []

module _ {A : Type 0} (call : A → Call process) (a : A) where
  abbrev attempt : process.State → Result ℕ A × process.State
  attempt s = (ok a, keep (call a) s)

  abbrev step : process.State → A × process.State
  step s = (a, keep (call a) s)

abbrev network_made : NetworkParts process
network_made = record {
  network = 10;
  network_status_sinks = 11;
  system_rpc_tx = 12;
  network_starter = 13;
}

abbrev framework : Framework process
framework = record {
  prometheus_registry = λ config. none;
  longest_chain = λ backend. backend + 100;
  get_or_compute = λ client. attempt (Call.get_or_compute client) 4;
  babe_block_import = λ config block_import client.
      attempt (Call.babe_block_import config block_import client) (5, 6);
  inherent_data_providers = 7;
  import_queue = λ q. attempt (Call.import_queue q) 8;
  finality_proof_provider = λ backend client. backend + client + 200;
  build_network = λ q. attempt (Call.build_network q) network_made;
  build_offchain_workers = λ config backend task_manager client network.
      step (λ u. Call.build_offchain_workers config backend task_manager client network) tt;
  telemetry_connection_sinks = 14;
  spawn_tasks = λ q. attempt (λ handlers. Call.spawn_tasks q) 15;
  start_network = λ starter. step (λ u. Call.start_network starter) tt;
}

abbrev full_framework : FullFramework process
full_framework = record {
  new_full_parts = λ config. attempt (Call.new_full_parts config) (1, 2, 3, 16);
  new_full_pool = λ config registry task_manager client.
      step (Call.new_full_pool config registry task_manager client) 17;
  grandpa_block_import =
      λ client select_chain. attempt (Call.grandpa_block_import client select_chain) (18, 19);
  can_author_with_native_version = λ client. client + 300;
  justification_stream = λ link. link + 400;
  shared_authority_set = λ link. link + 500;
  empty_voter_state = 23;
  babe_config = λ link. 4;
  epoch_changes = λ link. link + 600;
  proposer_factory = λ client pool registry. client + pool;
  start_babe = λ q. attempt (Call.start_babe q) 26;
  spawn = λ task_manager essential name task.
      step (λ u. Call.spawn task_manager essential name task) tt;
  dht_event_stream = λ network name. network + 700;
  new_discovery_worker = λ client network sentries events role registry.
      step (Call.new_discovery_worker client network sentries events role registry) 28;
  on_connect_stream = λ sinks. sinks + 800;
  voting_rule = 30;
  run_grandpa_voter = λ q. attempt (Call.run_grandpa_voter q) 31;
  setup_disabled_grandpa = λ client providers network.
      attempt (λ u. Call.setup_disabled_grandpa client providers network) tt;
}

-- handlers that are functions from names to methods, and no extensions
abbrev no_methods : Delegate ℕ
no_methods name = none

abbrev server : RpcServer process
server = record {
  Method = ℕ;
  handler = record {
    Io = Text → Option ℕ;
    default = no_methods;
    extend_with = λ d io name. or_else (d name) (io name);
    get = λ io. io;
    get-default = λ name. refl;
    get-extend_with = λ d io name. refl;
  };
  extensions = record {
    full_system = λ client pool deny_unsafe. no_methods;
    transaction_payment = λ client. no_methods;
    babe_rpc = λ client epochs keystore config select_chain deny_unsafe. no_methods;
    grandpa_rpc = λ authorities voters stream executor provider. no_methods;
    light_system = λ client chain fetcher pool. no_methods;
  };
  io = λ io. io;
}

abbrev quiet : process.BabeBlockImport → process.BabeLink → process.State → Unit {0} × process.State
quiet block_import babe_link s = (tt, s)

-- ===== src/Node/Handles/Calls.antt =====
-- The calls of the framework that node/cli/src/service.rs makes for a full node, with what each was given
-- and what it returned, and a process that keeps them.
use ipci_blockchain.Prelude.{Bool, Option, List, [], ◌∷◌, ◌++◌, ◌≡◌}
use ipci_blockchain.Text.{Text, Result, ok, err}
use ipci_blockchain.Node.Service.{Configuration}
use ipci_blockchain.Node.Handles.{
  Handles, ImportQueueParams, BuildNetworkParams, NetworkParts, SpawnTasksParams, BabeParams,
  DiscoveryRole, GrandpaParams,
}
use ipci_blockchain.Node.Handles.Framework.{Framework, FullFramework}

pub data Call (H : Handles) : Type 0 where
  new_full_parts :
      Configuration H.Address → H.Client × H.Backend × H.KeyStore × H.TaskManager → Call H
  new_full_pool :
      Configuration H.Address → Option H.Registry → H.TaskManager → H.Client → H.Pool → Call H
  grandpa_block_import : H.Client → H.SelectChain → H.GrandpaBlockImport × H.GrandpaLink → Call H
  get_or_compute : H.Client → H.Config → Call H
  babe_block_import :
      H.Config → H.GrandpaBlockImport → H.Client → H.BabeBlockImport × H.BabeLink → Call H
  import_queue : ImportQueueParams H → H.ImportQueue → Call H
  build_network : BuildNetworkParams H → NetworkParts H → Call H
  build_offchain_workers :
      Configuration H.Address → H.Backend → H.TaskManager → H.Client → H.Network → Call H
  spawn_tasks : SpawnTasksParams H → Call H
  start_babe : BabeParams H → H.Task → Call H
  new_discovery_worker :
      H.Client
      → H.Network
      → List H.Address
      → H.EventStream
      → DiscoveryRole H
      → Option H.Registry
      → H.Task
      → Call H
  run_grandpa_voter : GrandpaParams H → H.Task → Call H
  setup_disabled_grandpa : H.Client → H.InherentDataProviders → H.Network → Call H
  spawn : H.TaskManager → Bool → Text → H.Task → Call H
  start_network : H.NetworkStarter → Call H
  -- a call that failed, with its error
  refused : H.Error → Call H

module _ {State E T : Type 0} (calls : State → List T) (fail : E → T) where
  abbrev pub Kept : {A : Type 0} → (A → T) → State → Result E A × State → Type 0
  Kept call s (ok a, s') = calls s' ≡ calls s ++ call a ∷ []
  Kept call s (err e, s') = calls s' ≡ calls s ++ fail e ∷ []

  -- when the call succeeds, it is kept, with what it returned; else its error is kept
  pub record Keeps {A : Type 0} (f : State → Result E A × State) (call : A → T) : Type 0 where
    pub keeps : (s : State) → Kept call s (f s)

-- the same of a call that cannot fail
module _ {State T : Type 0} (calls : State → List T) where
  pub record KeepsMade {A : Type 0} (f : State → A × State) (call : A → T) : Type 0 where
    pub keeps : (s : State) → calls (f s).1 ≡ calls s ++ call (f s).0 ∷ []

module _ (H : Handles) (calls : H.State → List (Call H)) where
  -- The process keeps each call of the framework that succeeds, and the error of one that fails.
  pub record IsKept (w : Framework H) (f : FullFramework H) : Type 0 where
    pub new_full_parts :
        (config : Configuration H.Address)
        → Keeps calls Call.refused (f.new_full_parts config) (Call.new_full_parts config)
    pub new_full_pool :
        (config : Configuration H.Address) (registry : Option H.Registry)
        (task_manager : H.TaskManager) (client : H.Client)
        → KeepsMade calls
            (f.new_full_pool config registry task_manager client)
            (Call.new_full_pool config registry task_manager client)
    pub grandpa_block_import :
        (client : H.Client) (select_chain : H.SelectChain)
        → Keeps calls Call.refused
            (f.grandpa_block_import client select_chain)
            (Call.grandpa_block_import client select_chain)
    pub get_or_compute :
        (client : H.Client)
        → Keeps calls Call.refused (w.get_or_compute client) (Call.get_or_compute client)
    pub babe_block_import :
        (config : H.Config) (block_import : H.GrandpaBlockImport) (client : H.Client)
        → Keeps calls Call.refused
            (w.babe_block_import config block_import client)
            (Call.babe_block_import config block_import client)
    pub import_queue :
        (q : ImportQueueParams H)
        → Keeps calls Call.refused (w.import_queue q) (Call.import_queue q)
    pub build_network :
        (q : BuildNetworkParams H)
        → Keeps calls Call.refused (w.build_network q) (Call.build_network q)
    pub build_offchain_workers :
        (config : Configuration H.Address) (backend : H.Backend) (task_manager : H.TaskManager)
        (client : H.Client) (network : H.Network)
        → KeepsMade calls
            (w.build_offchain_workers config backend task_manager client network)
            (λ u. Call.build_offchain_workers config backend task_manager client network)
    pub spawn_tasks :
        (q : SpawnTasksParams H)
        → Keeps calls Call.refused (w.spawn_tasks q) (λ handlers. Call.spawn_tasks q)
    pub start_babe :
        (q : BabeParams H) → Keeps calls Call.refused (f.start_babe q) (Call.start_babe q)
    pub new_discovery_worker :
        (client : H.Client) (network : H.Network) (sentries : List H.Address)
        (events : H.EventStream) (role : DiscoveryRole H) (registry : Option H.Registry)
        → KeepsMade calls
            (f.new_discovery_worker client network sentries events role registry)
            (Call.new_discovery_worker client network sentries events role registry)
    pub run_grandpa_voter :
        (q : GrandpaParams H)
        → Keeps calls Call.refused (f.run_grandpa_voter q) (Call.run_grandpa_voter q)
    pub setup_disabled_grandpa :
        (client : H.Client) (providers : H.InherentDataProviders) (network : H.Network)
        → Keeps calls Call.refused
            (f.setup_disabled_grandpa client providers network)
            (λ u. Call.setup_disabled_grandpa client providers network)
    pub spawn :
        (task_manager : H.TaskManager) (essential : Bool) (name : Text) (task : H.Task)
        → KeepsMade calls
            (f.spawn task_manager essential name task)
            (λ u. Call.spawn task_manager essential name task)
    pub start_network :
        (starter : H.NetworkStarter)
        → KeepsMade calls (w.start_network starter) (λ u. Call.start_network starter)

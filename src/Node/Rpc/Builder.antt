-- ===== src/Node/Rpc/Builder.antt =====
-- node/cli/src/service.rs: what the RPC handlers of a node are made of, the closure that `new_partial`
-- hands out for a full node, and the handler that `new_light_base` makes.
use ipci_blockchain.Prelude.{◌≡◌, ◌⊎◌, inl, inr, some}
use ipci_blockchain.Text.{Text}
use ipci_blockchain.Node.Rpc.{
  Types, FullDeps, LightDeps, IoHandler, Extensions, create_full, create_light,
}
use ipci_blockchain.Node.Rpc.Served.{Api, extension, Distinct, create_full-serves}

-- the parts of a full node that the closure keeps, read off the links of GRANDPA and BABE
pub record FullParts (T : Types) : Type 0 where
  pub client : T.Client
  pub transaction_pool : T.Pool
  pub select_chain : T.SelectChain
  pub keystore : T.KeyStore
  pub justification_stream : T.JustificationStream
  pub shared_authority_set : T.SharedAuthoritySet
  pub shared_voter_state : T.SharedVoterState
  pub finality_proof_provider : T.FinalityProvider
  pub babe_config : T.Config
  pub shared_epoch_changes : T.SharedEpochChanges

pub record LightParts (T : Types) : Type 0 where
  pub client : T.Client
  pub transaction_pool : T.Pool
  pub remote_blockchain : T.RemoteBlockchain
  pub on_demand : T.Fetcher

module _ {T : Types} where
  -- `deps` in the closure `rpc_extensions_builder`
  abbrev pub full_deps : FullParts T → T.DenyUnsafe → T.SubscriptionExecutor → FullDeps T
  full_deps p deny_unsafe subscription_executor = record {
    client = p.client;
    pool = p.transaction_pool;
    select_chain = p.select_chain;
    deny_unsafe = deny_unsafe;
    babe = record {
      babe_config = p.babe_config;
      shared_epoch_changes = p.shared_epoch_changes;
      keystore = p.keystore;
    };
    grandpa = record {
      shared_voter_state = p.shared_voter_state;
      shared_authority_set = p.shared_authority_set;
      justification_stream = p.justification_stream;
      subscription_executor = subscription_executor;
      finality_provider = p.finality_proof_provider;
    };
  }

  -- `light_deps`
  abbrev pub light_deps : LightParts T → LightDeps T
  light_deps p = record {
    client = p.client;
    pool = p.transaction_pool;
    remote_blockchain = p.remote_blockchain;
    fetcher = p.on_demand;
  }

module _ {T : Types} {Method : Type 0} (h : IoHandler Method) (e : Extensions T Method) where
  -- `rpc_extensions_builder`
  unfoldable pub rpc_extensions_builder : FullParts T → T.DenyUnsafe → T.SubscriptionExecutor → h.Io
  rpc_extensions_builder p deny_unsafe subscription_executor =
      create_full h e (full_deps p deny_unsafe subscription_executor)

  -- the handler of a light node
  unfoldable pub rpc_extensions : LightParts T → h.Io
  rpc_extensions p = create_light h e (light_deps p)

  -- What a full node answers to the methods for payments and for GRANDPA does not depend on whether
  -- unsafe calls are denied.
  pub builder-safe :
      (p : FullParts T) (deny deny' : T.DenyUnsafe) (executor : T.SubscriptionExecutor)
      → Distinct h e (full_deps p deny executor)
      → Distinct h e (full_deps p deny' executor)
      → (name : Text) (m : Method)
      → (e.transaction_payment p.client name ≡ some m)
        ⊎ (extension h e (full_deps p deny executor) Api.grandpa name ≡ some m)
      → (h.get (rpc_extensions_builder p deny executor) name ≡ some m)
        × (h.get (rpc_extensions_builder p deny' executor) name ≡ some m)
  unfolding rpc_extensions_builder
  builder-safe p deny deny' executor distinct distinct' name m (inl pays) = (
    (create_full-serves h e (full_deps p deny executor) distinct name m).1 (Api.payment, pays),
    (create_full-serves h e (full_deps p deny' executor) distinct' name m).1 (Api.payment, pays),
  )
  builder-safe p deny deny' executor distinct distinct' name m (inr votes) = (
    (create_full-serves h e (full_deps p deny executor) distinct name m).1 (Api.grandpa, votes),
    (create_full-serves h e (full_deps p deny' executor) distinct' name m).1 (Api.grandpa, votes),
  )

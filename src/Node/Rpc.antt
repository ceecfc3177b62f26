-- ===== src/Node/Rpc.antt =====
-- node/rpc/src/lib.rs: which extensions the RPC handlers of a full and of a light node have, and what
-- each is made of. The handler of jsonrpc_core and the extensions of the framework are parameters.
pub mod Served
pub mod Builder
use ipci_blockchain.Prelude.{◌≡◌, Option, none, some}
use ipci_blockchain.Prelude.Options.{or_else}
use ipci_blockchain.Text.{Text}

-- the types of what the handlers are made of, which are the framework's
pub record Types : Type 1 where
  pub Client : Type 0
  pub Pool : Type 0
  pub SelectChain : Type 0
  pub DenyUnsafe : Type 0
  pub Config : Type 0
  pub SharedEpochChanges : Type 0
  pub KeyStore : Type 0
  pub SharedVoterState : Type 0
  pub SharedAuthoritySet : Type 0
  pub JustificationStream : Type 0
  pub SubscriptionExecutor : Type 0
  pub FinalityProvider : Type 0
  pub RemoteBlockchain : Type 0
  pub Fetcher : Type 0

pub record LightDeps (T : Types) : Type 0 where
  pub client : T.Client
  pub pool : T.Pool
  pub remote_blockchain : T.RemoteBlockchain
  pub fetcher : T.Fetcher

pub record BabeDeps (T : Types) : Type 0 where
  pub babe_config : T.Config
  pub shared_epoch_changes : T.SharedEpochChanges
  pub keystore : T.KeyStore

pub record GrandpaDeps (T : Types) : Type 0 where
  pub shared_voter_state : T.SharedVoterState
  pub shared_authority_set : T.SharedAuthoritySet
  pub justification_stream : T.JustificationStream
  pub subscription_executor : T.SubscriptionExecutor
  pub finality_provider : T.FinalityProvider

pub record FullDeps (T : Types) : Type 0 where
  pub client : T.Client
  pub pool : T.Pool
  pub select_chain : T.SelectChain
  pub deny_unsafe : T.DenyUnsafe
  pub babe : BabeDeps T
  pub grandpa : GrandpaDeps T

-- the methods of an extension by their names: what `to_delegate` gives
abbrev pub Delegate : Type 0 → Type 0
Delegate Method = Text → Option Method

-- `jsonrpc_core::IoHandler`: a new handler has no method, and `extend_with` overwrites the methods
-- of the same name
pub record IoHandler (Method : Type 0) : Type 1 where
  pub Io : Type 0
  pub default : Io
  pub extend_with : Delegate Method → Io → Io
  pub get : Io → Text → Option Method
  pub get-default : (name : Text) → get default name ≡ none
  pub get-extend_with :
      (d : Delegate Method) (io : Io) (name : Text)
      → get (extend_with d io) name ≡ or_else (d name) (get io name)

-- `to_delegate` of the framework's extensions, with the arguments of `new`
pub record Extensions (T : Types) (Method : Type 0) : Type 0 where
  pub full_system : T.Client → T.Pool → T.DenyUnsafe → Delegate Method
  pub transaction_payment : T.Client → Delegate Method
  pub babe_rpc :
      T.Client
      → T.SharedEpochChanges
      → T.KeyStore
      → T.Config
      → T.SelectChain
      → T.DenyUnsafe
      → Delegate Method
  pub grandpa_rpc :
      T.SharedAuthoritySet
      → T.SharedVoterState
      → T.JustificationStream
      → T.SubscriptionExecutor
      → T.FinalityProvider
      → Delegate Method
  pub light_system : T.Client → T.RemoteBlockchain → T.Fetcher → T.Pool → Delegate Method

module _ {T : Types} {Method : Type 0} (h : IoHandler Method) (e : Extensions T Method) where
  -- `create_full`
  unfoldable pub create_full : FullDeps T → h.Io
  create_full deps =
      let io = h.extend_with (e.full_system deps.client deps.pool deps.deny_unsafe) h.default in
      let io = h.extend_with (e.transaction_payment deps.client) io in
      let io =
        h.extend_with
          (e.babe_rpc deps.client deps.babe.shared_epoch_changes deps.babe.keystore
            deps.babe.babe_config deps.select_chain deps.deny_unsafe)
          io in
      h.extend_with
        (e.grandpa_rpc deps.grandpa.shared_authority_set deps.grandpa.shared_voter_state
          deps.grandpa.justification_stream deps.grandpa.subscription_executor
          deps.grandpa.finality_provider)
        io

  -- `create_light`
  unfoldable pub create_light : LightDeps T → h.Io
  create_light deps =
      h.extend_with (e.light_system deps.client deps.remote_blockchain deps.fetcher deps.pool)
        h.default

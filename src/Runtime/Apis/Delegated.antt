-- ===== src/Runtime/Apis/Delegated.antt =====
-- node/runtime/src/lib.rs, `impl_runtime_apis!`: the entry points of the runtime that pass their arguments
-- on, and to what. What changes the state returns the state it leaves.
use ipci_blockchain.Prelude.{ℕ, Option, List}
use ipci_blockchain.Runtime.Apis.{RuntimeVersion, version}

-- the framework's types in the signatures of the APIs
pub record Types : Type 1 where
  pub State : Type 0
  pub Block : Type 0
  pub Header : Type 0
  pub Extrinsic : Type 0
  pub Hash : Type 0
  pub Apis : Type 0
  pub OpaqueMetadata : Type 0
  pub InherentData : Type 0
  pub CheckInherentsResult : Type 0
  pub ApplyExtrinsicResult : Type 0
  pub TransactionSource : Type 0
  pub TransactionValidity : Type 0
  pub GrandpaAuthorityList : Type 0
  pub AuthorityDiscoveryId : Type 0
  pub AccountId : Type 0
  pub RuntimeDispatchInfo : Type 0
  pub KeyTypeId : Type 0

-- `frame_executive::Executive`; `none` is its panic on a block that is not valid
pub record Executive (t : Types) : Type 0 where
  pub execute_block : t.Block → t.State → Option t.State
  pub initialize_block : t.Header → t.State → t.State
  pub apply_extrinsic : t.Extrinsic → t.State → t.ApplyExtrinsicResult × t.State
  pub finalize_block : t.State → t.Header × t.State
  pub validate_transaction :
      t.TransactionSource → t.Extrinsic → t.State → t.TransactionValidity × t.State
  pub offchain_worker : t.Header → t.State → t.State

-- What `construct_runtime!` and `impl_opaque_keys!` generate: the metadata, the inherents of the
-- pallets, and the session keys, which are made in the key store of the node.
pub record Generated (t : Types) : Type 0 where
  pub runtime_api_versions : t.Apis
  pub metadata : t.OpaqueMetadata
  pub create_extrinsics : t.InherentData → t.State → List t.Extrinsic
  pub check_extrinsics : t.InherentData → t.Block → t.State → t.CheckInherentsResult
  pub generate : Option (List ℕ) → t.State → List ℕ × t.State
  pub decode_into_raw_public_keys : List ℕ → Option (List (List ℕ × t.KeyTypeId))

-- the functions of the pallets that the APIs read from
pub record Pallets (t : Types) : Type 0 where
  -- `RandomnessCollectiveFlip`, `Grandpa`, `Babe`, `AuthorityDiscovery`, `System`, `TransactionPayment`
  pub random_seed : t.State → t.Hash
  pub grandpa_authorities : t.State → t.GrandpaAuthorityList
  pub current_epoch_start : t.State → ℕ
  pub authorities : t.State → List t.AuthorityDiscoveryId
  pub account_nonce : t.AccountId → t.State → ℕ
  pub query_info : t.Extrinsic → ℕ → t.State → t.RuntimeDispatchInfo

module _ (t : Types) (e : Executive t) where
  -- `Core`, with `version` below
  abbrev pub execute_block : t.Block → t.State → Option t.State
  execute_block block = e.execute_block block

  abbrev pub initialize_block : t.Header → t.State → t.State
  initialize_block header = e.initialize_block header

  -- `BlockBuilder`
  abbrev pub apply_extrinsic : t.Extrinsic → t.State → t.ApplyExtrinsicResult × t.State
  apply_extrinsic extrinsic = e.apply_extrinsic extrinsic

  abbrev pub finalize_block : t.State → t.Header × t.State
  finalize_block = e.finalize_block

  -- `TaggedTransactionQueue`
  abbrev pub validate_transaction :
      t.TransactionSource → t.Extrinsic → t.State → t.TransactionValidity × t.State
  validate_transaction source tx = e.validate_transaction source tx

  -- `OffchainWorkerApi`
  abbrev pub offchain_worker : t.Header → t.State → t.State
  offchain_worker header = e.offchain_worker header

module _ (t : Types) (g : Generated t) where
  -- `Core::version`
  abbrev pub core_version : RuntimeVersion t.Apis
  core_version = version g.runtime_api_versions

  -- `Metadata`
  abbrev pub metadata : t.OpaqueMetadata
  metadata = g.metadata

  -- `BlockBuilder`, of the inherents
  abbrev pub inherent_extrinsics : t.InherentData → t.State → List t.Extrinsic
  inherent_extrinsics inherents = g.create_extrinsics inherents

  abbrev pub check_inherents : t.Block → t.InherentData → t.State → t.CheckInherentsResult
  check_inherents block inherents = g.check_extrinsics inherents block

  -- `SessionKeys`
  abbrev pub generate_session_keys : Option (List ℕ) → t.State → List ℕ × t.State
  generate_session_keys seed = g.generate seed

  abbrev pub decode_session_keys : List ℕ → Option (List (List ℕ × t.KeyTypeId))
  decode_session_keys encoded = g.decode_into_raw_public_keys encoded

module _ (t : Types) (p : Pallets t) where
  -- `BlockBuilder::random_seed`
  abbrev pub random_seed : t.State → t.Hash
  random_seed = p.random_seed

  -- `GrandpaApi::grandpa_authorities`
  abbrev pub grandpa_authorities : t.State → t.GrandpaAuthorityList
  grandpa_authorities = p.grandpa_authorities

  -- `BabeApi::current_epoch_start`
  abbrev pub current_epoch_start : t.State → ℕ
  current_epoch_start = p.current_epoch_start

  -- `AuthorityDiscoveryApi`
  abbrev pub authorities : t.State → List t.AuthorityDiscoveryId
  authorities = p.authorities

  -- `AccountNonceApi`
  abbrev pub account_nonce : t.AccountId → t.State → ℕ
  account_nonce account = p.account_nonce account

  -- `TransactionPaymentApi`
  abbrev pub query_info : t.Extrinsic → ℕ → t.State → t.RuntimeDispatchInfo
  query_info uxt len = p.query_info uxt len

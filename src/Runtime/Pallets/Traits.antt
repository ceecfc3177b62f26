-- ===== src/Runtime/Pallets/Traits.antt =====
-- node/runtime/src/lib.rs: the associated types that `impl …::Trait for Runtime` gives each pallet, in
-- their order. A type of the framework, of the primitives or of the runtime is an `item` of that name.
pub mod Consensus
use Prim.Native.String.{String}
use ipci_blockchain.Prelude.{ℕ, List, [], ◌∷◌}
use ipci_blockchain.Text.{Text, codes}
use ipci_blockchain.Runtime.Pallets.{Pallet}
use ipci_blockchain.Runtime.Transactions.{block_hash_count}
use ipci_blockchain.Runtime.Parameters

-- What an associated type is: `()`, a constant of `parameter_types!`, a pallet of the runtime or a
-- tuple of them, the runtime itself, its events or its calls, or an item.
pub data Bound : Type 0 where
  nothing runtime event call : Bound
  value : ℕ → Bound
  modules : List Pallet → Bound
  item : String → Bound

pub record Binding : Type 0 where
  pub name : Text
  pub bound : Bound

infix 4 ◌:=◌
abbrev pub ◌:=◌ : String → Bound → Binding
name := bound = record { name = codes name; bound = bound }

abbrev pub balances_module : Bound
balances_module = modules (Pallet.balances ∷ [])

module _ (weight_per_second : ℕ) (part_of : ℕ → ℕ → ℕ) where
  -- `frame_system::Trait`
  abbrev pub system_trait : List Binding
  system_trait =
      ("BaseCallFilter" := nothing)
      ∷ ("Origin" := item "Origin")
      ∷ ("Call" := call)
      ∷ ("Index" := item "Index")
      ∷ ("BlockNumber" := item "BlockNumber")
      ∷ ("Hash" := item "Hash")
      ∷ ("Hashing" := item "BlakeTwo256")
      ∷ ("AccountId" := item "AccountId")
      ∷ ("Lookup" := modules (Pallet.indices ∷ []))
      ∷ ("Header" := item "generic::Header<BlockNumber, BlakeTwo256>")
      ∷ ("Event" := event)
      ∷ ("BlockHashCount" := value block_hash_count)
      ∷ ("MaximumBlockWeight" := value (Parameters.maximum_block_weight weight_per_second part_of))
      ∷ ("DbWeight" := item "RocksDbWeight")
      ∷ ("BlockExecutionWeight" := item "BlockExecutionWeight")
      ∷ ("ExtrinsicBaseWeight" := item "ExtrinsicBaseWeight")
      ∷ ("MaximumExtrinsicWeight"
          := value (Parameters.maximum_extrinsic_weight weight_per_second part_of))
      ∷ ("MaximumBlockLength" := value Parameters.maximum_block_length)
      ∷ ("AvailableBlockRatio" := value Parameters.available_block_ratio)
      ∷ ("Version" := item "Version")
      ∷ ("PalletInfo" := item "PalletInfo")
      ∷ ("AccountData" := item "pallet_balances::AccountData<Balance>")
      ∷ ("OnNewAccount" := nothing)
      ∷ ("OnKilledAccount" := nothing)
      ∷ ("SystemWeightInfo" := nothing)
      ∷ []

  -- `pallet_offences::Trait`
  abbrev pub offences_trait : List Binding
  offences_trait =
      ("Event" := event)
      ∷ ("IdentificationTuple" := item "pallet_session::historical::IdentificationTuple<Self>")
      ∷ ("OnOffenceHandler" := modules (Pallet.staking ∷ []))
      ∷ ("WeightSoftLimit"
          := value (Parameters.offences_weight_soft_limit weight_per_second part_of))
      ∷ []

-- `pallet_utility::Trait`
abbrev pub utility_trait : List Binding
utility_trait = ("Event" := event) ∷ ("Call" := call) ∷ ("WeightInfo" := nothing) ∷ []

-- `pallet_multisig::Trait`
abbrev pub multisig_trait : List Binding
multisig_trait =
    ("Event" := event)
    ∷ ("Call" := call)
    ∷ ("Currency" := balances_module)
    ∷ ("DepositBase" := value Parameters.deposit_base)
    ∷ ("DepositFactor" := value Parameters.deposit_factor)
    ∷ ("MaxSignatories" := value Parameters.max_signatories)
    ∷ ("WeightInfo" := nothing)
    ∷ []

-- `pallet_indices::Trait`
abbrev pub indices_trait : List Binding
indices_trait =
    ("AccountIndex" := item "AccountIndex")
    ∷ ("Currency" := balances_module)
    ∷ ("Deposit" := value Parameters.index_deposit)
    ∷ ("Event" := event)
    ∷ ("WeightInfo" := nothing)
    ∷ []

-- `pallet_balances::Trait`
abbrev pub balances_trait : List Binding
balances_trait =
    ("MaxLocks" := value Parameters.max_locks)
    ∷ ("Balance" := item "Balance")
    ∷ ("DustRemoval" := nothing)
    ∷ ("Event" := event)
    ∷ ("ExistentialDeposit" := value Parameters.existential_deposit)
    ∷ ("AccountStore" := modules (Pallet.system ∷ []))
    ∷ ("WeightInfo" := nothing)
    ∷ []

-- `pallet_transaction_payment::Trait`
abbrev pub transaction_payment_trait : List Binding
transaction_payment_trait =
    ("Currency" := balances_module)
    ∷ ("OnTransactionPayment" := nothing)
    ∷ ("TransactionByteFee" := value Parameters.transaction_byte_fee)
    ∷ ("WeightToFee" := item "WeightToFee")
    ∷ ("FeeMultiplierUpdate"
        := item
            "TargetedFeeAdjustment<Self, TargetBlockFullness, AdjustmentVariable, MinimumMultiplier>")
    ∷ []

-- `pallet_timestamp::Trait`
abbrev pub timestamp_trait : List Binding
timestamp_trait =
    ("Moment" := item "Moment")
    ∷ ("OnTimestampSet" := modules (Pallet.babe ∷ []))
    ∷ ("MinimumPeriod" := value Parameters.minimum_period)
    ∷ ("WeightInfo" := nothing)
    ∷ []

-- `pallet_identity::Trait`
abbrev pub identity_trait : List Binding
identity_trait =
    ("Event" := event)
    ∷ ("Currency" := balances_module)
    ∷ ("BasicDeposit" := value Parameters.basic_deposit)
    ∷ ("FieldDeposit" := value Parameters.field_deposit)
    ∷ ("SubAccountDeposit" := value Parameters.sub_account_deposit)
    ∷ ("MaxSubAccounts" := value Parameters.max_sub_accounts)
    ∷ ("MaxAdditionalFields" := value Parameters.max_additional_fields)
    ∷ ("MaxRegistrars" := value Parameters.max_registrars)
    ∷ ("Slashed" := nothing)
    ∷ ("ForceOrigin" := item "frame_system::EnsureRoot<<Self as frame_system::Trait>::AccountId>")
    ∷ ("RegistrarOrigin"
        := item "frame_system::EnsureRoot<<Self as frame_system::Trait>::AccountId>")
    ∷ ("WeightInfo" := nothing)
    ∷ []

-- `pallet_sudo::Trait`
abbrev pub sudo_trait : List Binding
sudo_trait = ("Event" := event) ∷ ("Call" := call) ∷ []

-- `pallet_finality_tracker::Trait`, of a pallet that the runtime does not have
abbrev pub finality_tracker_trait : List Binding
finality_tracker_trait =
    ("OnFinalizationStalled" := nothing)
    ∷ ("WindowSize" := value Parameters.window_size)
    ∷ ("ReportLatency" := value Parameters.report_latency)
    ∷ []

-- `pallet_robonomics_datalog::Trait`
abbrev pub datalog_trait : List Binding
datalog_trait =
    ("Time" := modules (Pallet.timestamp ∷ []))
    ∷ ("Record" := item "Vec<u8>")
    ∷ ("Event" := event)
    ∷ ("WindowSize" := value Parameters.datalog_window_size)
    ∷ ("MaximumMessageSize" := value Parameters.datalog_maximum_message_size)
    ∷ ("WeightInfo" := nothing)
    ∷ []

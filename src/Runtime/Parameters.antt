-- ===== src/Runtime/Parameters.antt =====
-- node/runtime/src/lib.rs: the parameters of the runtime's pallets. Weights are `u64`, balances `u128`,
-- block numbers `u32`; a `Perbill` is its number of parts in 1_000_000_000.
pub mod Consistency
pub mod Logs
pub mod Typed
pub mod Curve
use ipci_blockchain.Prelude.{ℕ, ◌-◌, ◌*◌, ◌/◌, ◌%◌, ◌^◌}
use ipci_blockchain.Runtime.Constants.{
  u_mito, mito, mul_balance, deposit, slot_duration, millisecs_per_block, epoch_duration_in_slots,
}

-- `Perbill::from_percent`
abbrev pub from_percent : ℕ → ℕ
from_percent p = p * 10_000_000

-- `AVERAGE_ON_INITIALIZE_WEIGHT` and `AvailableBlockRatio`
abbrev pub average_on_initialize_weight : ℕ
average_on_initialize_weight = from_percent 10

abbrev pub available_block_ratio : ℕ
available_block_ratio = from_percent 75

-- `WEIGHT_PER_SECOND` of the framework, and its product of a `Perbill` and a weight
module _ (weight_per_second : ℕ) (part_of : ℕ → ℕ → ℕ) where
  -- `MaximumBlockWeight`
  abbrev pub maximum_block_weight : ℕ
  maximum_block_weight = 2 * weight_per_second % 2 ^ 64

  -- `MaximumExtrinsicWeight`
  unfoldable pub maximum_extrinsic_weight : ℕ
  maximum_extrinsic_weight =
      part_of (available_block_ratio - average_on_initialize_weight) maximum_block_weight

  -- `OffencesWeightSoftLimit`
  unfoldable pub offences_weight_soft_limit : ℕ
  offences_weight_soft_limit = part_of (from_percent 60) maximum_block_weight

-- `MaximumBlockLength`
abbrev pub maximum_block_length : ℕ
maximum_block_length = 5 * 1024 * 1024 % 2 ^ 32

-- `DepositBase` and `DepositFactor` of the multisig pallet, and its `MaxSignatories`
abbrev pub deposit_base : ℕ
deposit_base = deposit 1 88

abbrev pub deposit_factor : ℕ
deposit_factor = deposit 0 32

abbrev pub max_signatories : ℕ
max_signatories = 100

-- `EpochDuration` and `ExpectedBlockTime`
abbrev pub epoch_duration : ℕ
epoch_duration = epoch_duration_in_slots

abbrev pub expected_block_time : ℕ
expected_block_time = millisecs_per_block

-- `IndexDeposit`, `ExistentialDeposit` and `TransactionByteFee`
abbrev pub index_deposit : ℕ
index_deposit = mul_balance 1 u_mito

abbrev pub existential_deposit : ℕ
existential_deposit = mul_balance 50_000 u_mito

abbrev pub transaction_byte_fee : ℕ
transaction_byte_fee = mul_balance 1 u_mito

-- `MaxLocks` of the balances pallet, and `TargetBlockFullness`, in parts of 10^18
abbrev pub max_locks : ℕ
max_locks = 50

abbrev pub target_block_fullness : ℕ
target_block_fullness = 25 * 10 ^ 16

-- `UncleGenerations` and `DisabledValidatorsThreshold`
abbrev pub uncle_generations : ℕ
uncle_generations = 5

abbrev pub disabled_validators_threshold : ℕ
disabled_validators_threshold = from_percent 17

-- `MinimumPeriod` of the timestamp pallet
abbrev pub minimum_period : ℕ
minimum_period = slot_duration / 2

-- `SessionsPerEra`, `BondingDuration`, `SlashDeferDuration` and `ElectionLookahead`
abbrev pub sessions_per_era : ℕ
sessions_per_era = 10

abbrev pub bonding_duration : ℕ
bonding_duration = 24 * 28 % 2 ^ 32

abbrev pub slash_defer_duration : ℕ
slash_defer_duration = 24 * 7 % 2 ^ 32

abbrev pub election_lookahead : ℕ
election_lookahead = 25

-- `MaxNominatorRewardedPerValidator` and `MaxIterations`
abbrev pub max_nominator_rewarded_per_validator : ℕ
max_nominator_rewarded_per_validator = 64

abbrev pub max_iterations : ℕ
max_iterations = 5

-- `BasicDeposit`, `FieldDeposit`, `SubAccountDeposit`, `MaxSubAccounts`, `MaxAdditionalFields` and
-- `MaxRegistrars` of the identity pallet
abbrev pub basic_deposit : ℕ
basic_deposit = mul_balance 10 mito

abbrev pub field_deposit : ℕ
field_deposit = mul_balance 250 u_mito

abbrev pub sub_account_deposit : ℕ
sub_account_deposit = mul_balance 2 mito

abbrev pub max_sub_accounts : ℕ
max_sub_accounts = 100

abbrev pub max_additional_fields : ℕ
max_additional_fields = 100

abbrev pub max_registrars : ℕ
max_registrars = 20

-- `SessionDuration`, a `u32`, and the two transaction priorities
abbrev pub session_duration : ℕ
session_duration = epoch_duration_in_slots % 2 ^ 32

abbrev pub im_online_unsigned_priority : ℕ
im_online_unsigned_priority = 2 ^ 64 - 1

abbrev pub staking_unsigned_priority : ℕ
staking_unsigned_priority = (2 ^ 64 - 1) / 2

-- `WindowSize` and `ReportLatency` of the finality tracker
abbrev pub window_size : ℕ
window_size = 101

abbrev pub report_latency : ℕ
report_latency = 1000

-- `DatalogWindowSize` and `DatalogMaximumMessageSize`
abbrev pub datalog_window_size : ℕ
datalog_window_size = 128

abbrev pub datalog_maximum_message_size : ℕ
datalog_maximum_message_size = 512

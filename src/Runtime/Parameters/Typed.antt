-- ===== src/Runtime/Parameters/Typed.antt =====
-- The types of the parameters of node/runtime/src/lib.rs, which node/primitives names.
use ipci_blockchain.Prelude.{◌*◌, ◌≡◌, refl, arith}
use ipci_blockchain.Node.Primitives.{IsBlockNumber, IsBalance, IsMoment, IsTimestamp}
use ipci_blockchain.Runtime.Constants.{
  u_mito, mito, slot_duration, millisecs_per_block, epoch_duration_in_blocks, minutes, hours, days,
  deposit-exact,
}
use ipci_blockchain.Runtime.Parameters.{
  deposit_base, deposit_factor, index_deposit, existential_deposit, transaction_byte_fee,
  basic_deposit, field_deposit, sub_account_deposit, uncle_generations, election_lookahead,
  expected_block_time, minimum_period, window_size, report_latency,
}
use ipci_blockchain.Runtime.Transactions.{block_hash_count}

-- The amounts of money are what they are without a bound, so that no product of the source wraps
-- around.
balances_exact :
    (mito ≡ 1_000_000 * u_mito)
    × (existential_deposit ≡ 50_000 * u_mito)
    × (basic_deposit ≡ 10 * mito)
    × (sub_account_deposit ≡ 2 * mito)
    × (field_deposit ≡ 250 * u_mito)
    × (index_deposit ≡ u_mito)
    × (transaction_byte_fee ≡ u_mito)
    × (deposit_base ≡ 5_430_000_000_000)
    × (deposit_factor ≡ 1_920_000_000_000)
balances_exact = (
  refl,
  refl,
  refl,
  refl,
  refl,
  refl,
  refl,
  deposit-exact 1 88 (omega arith) (omega arith),
  deposit-exact 0 32 (omega arith) (omega arith),
)

-- The largest amounts, worked out so, are balances.
amounts-IsBalance :
    IsBalance (1_000_000 * u_mito)
    × IsBalance (50_000 * u_mito)
    × IsBalance (10 * mito)
    × IsBalance 5_430_000_000_000
amounts-IsBalance = (omega arith, omega arith, omega arith, omega arith)

-- Every length of time in blocks is a block number.
blocks-IsBlockNumber :
    IsBlockNumber block_hash_count
    × IsBlockNumber uncle_generations
    × IsBlockNumber election_lookahead
    × IsBlockNumber window_size
    × IsBlockNumber report_latency
    × IsBlockNumber epoch_duration_in_blocks
    × IsBlockNumber minutes
    × IsBlockNumber hours
    × IsBlockNumber days
blocks-IsBlockNumber = (
  omega arith,
  omega arith,
  omega arith,
  omega arith,
  omega arith,
  omega arith,
  omega arith,
  omega arith,
  omega arith,
)

-- Every length in milliseconds is a moment, and a timestamp of the node.
times-IsMoment :
    IsMoment millisecs_per_block
    × IsMoment slot_duration
    × IsMoment expected_block_time
    × IsMoment minimum_period
    × IsTimestamp slot_duration
times-IsMoment = (omega arith, omega arith, omega arith, omega arith, omega arith)

-- ===== src/Runtime/Parameters/Consistency.antt =====
-- How the parameters of node/runtime/src/lib.rs fit together.
use ipci_blockchain.Prelude.{ℕ, ◌+◌, ◌*◌, ◌/◌, ◌%◌, ◌^◌, ◌≤◌, ◌<◌, ◌≡◌, refl, arith}
use ipci_blockchain.Runtime.Constants.{slot_duration}
use ipci_blockchain.Runtime.Parameters.{
  average_on_initialize_weight, available_block_ratio, maximum_block_weight,
  maximum_extrinsic_weight, offences_weight_soft_limit, minimum_period, epoch_duration,
  session_duration, election_lookahead, expected_block_time, bonding_duration, slash_defer_duration,
  im_online_unsigned_priority, staking_unsigned_priority,
}

-- What the product of a `Perbill` and a weight is, at weights of whole parts.
abbrev Exact : (ℕ → ℕ → ℕ) → Type 0
Exact part_of =
    (p w : ℕ) → p ≤ 1_000_000_000 → w % 1_000_000_000 ≡ 0 → part_of p w ≡ p * (w / 1_000_000_000)

maximum_extrinsic_weight-eq :
    (weight_per_second : ℕ) (part_of : ℕ → ℕ → ℕ)
    → weight_per_second < 2 ^ 63
    → weight_per_second % 1_000_000_000 ≡ 0
    → Exact part_of
    → maximum_extrinsic_weight weight_per_second part_of
      ≡ 1_300_000_000 * (weight_per_second / 1_000_000_000)
unfolding maximum_extrinsic_weight
maximum_extrinsic_weight-eq wps part_of small whole exact =
    let block : (2 * wps % 2 ^ 64) % 1_000_000_000 ≡ 0 = omega arith in
    omega (arith, exact 650_000_000 (2 * wps % 2 ^ 64) (omega arith) block)

-- Where a second of weight is below 2^63 and a whole number of parts, and the product of a `Perbill` and
-- a weight of whole parts is exact, an extrinsic of the largest weight and the average initialisation
-- together weigh the available part of a block, which is at most the block, and a block's offence
-- reports, at their limit, fit in an extrinsic.
pub weights_fit :
    (weight_per_second : ℕ) (part_of : ℕ → ℕ → ℕ)
    → weight_per_second < 2 ^ 63
    → weight_per_second % 1_000_000_000 ≡ 0
    → Exact part_of
    → (maximum_extrinsic_weight weight_per_second part_of
          + part_of average_on_initialize_weight (maximum_block_weight weight_per_second part_of)
        ≡ part_of available_block_ratio (maximum_block_weight weight_per_second part_of))
      × (part_of available_block_ratio (maximum_block_weight weight_per_second part_of)
          ≤ maximum_block_weight weight_per_second part_of)
      × (offences_weight_soft_limit weight_per_second part_of
          ≤ maximum_extrinsic_weight weight_per_second part_of)
unfolding offences_weight_soft_limit
weights_fit wps part_of small whole exact =
    let block : (2 * wps % 2 ^ 64) % 1_000_000_000 ≡ 0 = omega arith in
    let available = exact 750_000_000 (2 * wps % 2 ^ 64) (omega arith) block in
    let average = exact 100_000_000 (2 * wps % 2 ^ 64) (omega arith) block in
    let offences = exact 600_000_000 (2 * wps % 2 ^ 64) (omega arith) block in
    let extrinsic = maximum_extrinsic_weight-eq wps part_of small whole exact in
    (
      omega (arith, available, extrinsic, average),
      omega (arith, available),
      omega (arith, extrinsic, offences),
    )

-- the lengths of time: a slot is twice the minimum period, a session is an epoch of ten minutes, an
-- election starts inside a session, slashes are applied before the bonds are free
slot_is_two_periods : 2 * minimum_period ≡ slot_duration
slot_is_two_periods = refl

session_is_epoch :
    (session_duration ≡ epoch_duration) × (epoch_duration * expected_block_time ≡ 600_000)
session_is_epoch = (refl, refl)

election_in_session : election_lookahead < session_duration
election_in_session = omega arith

slash_before_unbonding : slash_defer_duration * 4 ≡ bonding_duration
slash_before_unbonding = refl

-- heartbeats go before election solutions
heartbeats_first : staking_unsigned_priority < im_online_unsigned_priority
heartbeats_first = omega arith

-- the assertion of the source, that the two ratios can be subtracted
const_assert : average_on_initialize_weight ≤ available_block_ratio
const_assert = omega arith

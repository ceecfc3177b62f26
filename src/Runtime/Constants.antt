-- ===== src/Runtime/Constants.antt =====
-- node/runtime/src/constants.rs: units of money and of time, and the storage deposit.
use ipci_blockchain.Prelude.{ℕ, ◌+◌, ◌*◌, ◌/◌, ◌%◌, ◌^◌, ◌<◌, ◌≡◌, arith}

-- sums and products of `Balance`, a `u128`
abbrev pub add_balance : ℕ → ℕ → ℕ
add_balance a b = (a + b) % 2 ^ 128

abbrev pub mul_balance : ℕ → ℕ → ℕ
mul_balance a b = a * b % 2 ^ 128

-- `U_MITO` and `MITO`
abbrev pub u_mito : ℕ
u_mito = 1_000_000

abbrev pub mito : ℕ
mito = mul_balance 1_000_000 u_mito

-- `deposit`
unfoldable pub deposit : ℕ → ℕ → ℕ
deposit items bytes =
    add_balance (mul_balance (mul_balance items 15) mito / 100)
      (mul_balance (mul_balance bytes 6) mito / 100)

-- `MILLISECS_PER_BLOCK`, `SECS_PER_BLOCK`, `SLOT_DURATION`: moments, in milliseconds but the second
abbrev pub millisecs_per_block : ℕ
millisecs_per_block = 3000

abbrev pub secs_per_block : ℕ
secs_per_block = millisecs_per_block / 1000

abbrev pub slot_duration : ℕ
slot_duration = millisecs_per_block

-- `PRIMARY_PROBABILITY`
abbrev pub primary_probability : ℕ × ℕ
primary_probability = (1, 4)

-- `MINUTES`, `HOURS`, `DAYS`: in blocks, which are `u32`
abbrev pub minutes : ℕ
minutes = 60 / (secs_per_block % 2 ^ 32)

abbrev pub hours : ℕ
hours = minutes * 60 % 2 ^ 32

abbrev pub days : ℕ
days = hours * 24 % 2 ^ 32

-- `EPOCH_DURATION_IN_BLOCKS`
abbrev pub epoch_duration_in_blocks : ℕ
epoch_duration_in_blocks = 10 * minutes % 2 ^ 32

-- `EPOCH_DURATION_IN_SLOTS`; the source computes with `f64`, here with the exact fraction
abbrev pub epoch_duration_in_slots : ℕ
epoch_duration_in_slots = epoch_duration_in_blocks * millisecs_per_block / slot_duration

-- For all `u32` arguments no step of `deposit` overflows and no division rounds: an item costs
-- 150_000_000_000 and a byte 60_000_000_000, so that deposits add up.
pub deposit-exact :
    (items bytes : ℕ)
    → items < 2 ^ 32
    → bytes < 2 ^ 32
    → deposit items bytes ≡ items * 150_000_000_000 + bytes * 60_000_000_000
unfolding deposit
deposit-exact items bytes hi hb = omega arith

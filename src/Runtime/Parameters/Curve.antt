-- ===== src/Runtime/Parameters/Curve.antt =====
-- node/runtime/src/lib.rs: the reward curve of the staking pallet, and the parameters that the framework
-- computes from rational numbers. What makes fractions and curves is the framework's.
use ipci_blockchain.Prelude.{ℕ, ◌*◌, ◌/◌, ◌<◌, ◌≤◌, ◌≡◌, arith}

-- the arguments of `curve!`, in millionths
pub record CurveInput : Type 0 where
  pub min_inflation : ℕ
  pub max_inflation : ℕ
  pub ideal_stake : ℕ
  pub falloff : ℕ
  pub max_piece_count : ℕ
  pub test_precision : ℕ

-- `REWARD_CURVE`, before the framework makes pieces of it
abbrev pub reward_curve : CurveInput
reward_curve = record {
  min_inflation = 50_000;
  max_inflation = 150_000;
  ideal_stake = 666_666;
  falloff = 50_000;
  max_piece_count = 100;
  test_precision = 5_000;
}

-- `AdjustmentVariable` and `MinimumMultiplier`, with `Multiplier::saturating_from_rational`
abbrev pub adjustment_variable : {Multiplier : Type 0} → (ℕ → ℕ → Multiplier) → Multiplier
adjustment_variable saturating_from_rational = saturating_from_rational 3 100_000

abbrev pub minimum_multiplier : {Multiplier : Type 0} → (ℕ → ℕ → Multiplier) → Multiplier
minimum_multiplier saturating_from_rational = saturating_from_rational 1 1_000_000_000

-- `MinSolutionScoreBump`, with `Perbill::from_rational_approximation`
abbrev pub min_solution_score_bump : {Perbill : Type 0} → (ℕ → ℕ → Perbill) → Perbill
min_solution_score_bump from_rational_approximation = from_rational_approximation 5 10_000

-- A curve rises to its maximum at the ideal stake and falls off behind it, within the millionths.
abbrev IsCurve : CurveInput → Type 0
IsCurve c =
    (c.min_inflation < c.max_inflation)
    × (c.max_inflation ≤ 1_000_000)
    × (100_000 ≤ c.ideal_stake)
    × (c.ideal_stake ≤ 900_000)
    × (10_000 ≤ c.falloff)
    × (c.falloff ≤ 1_000_000)
    × (2 ≤ c.max_piece_count)

reward_curve-IsCurve : IsCurve reward_curve
reward_curve-IsCurve =
    (omega arith, omega arith, omega arith, omega arith, omega arith, omega arith, omega arith)

-- the part of `whole` that a rational number is, rounded down
abbrev part_of_whole : ℕ → ℕ → ℕ → ℕ
part_of_whole whole p q = p * whole / q

-- Neither rational is rounded where the multiplier counts in parts of 10^18 and the bump in parts of
-- 10^9; the least multiplier is below the adjustment, and not zero.
rationals_exact :
    (adjustment_variable (part_of_whole 1_000_000_000_000_000_000) ≡ 30_000_000_000_000)
    × (minimum_multiplier (part_of_whole 1_000_000_000_000_000_000) ≡ 1_000_000_000)
    × (min_solution_score_bump (part_of_whole 1_000_000_000) ≡ 500_000)
rationals_exact = (omega arith, omega arith, omega arith)

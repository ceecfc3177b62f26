-- ===== src/Runtime/Fees.antt =====
-- node/runtime/src/lib.rs: `WeightToFee`, the polynomial that turns the weight of a transaction into
-- a fee.
use ipci_blockchain.Prelude.{
  ℕ, ◌*◌, ◌/◌, ◌%◌, ◌^◌, ◌<◌, ◌≤◌, ◌≡◌, Bool, false, List, [], ◌∷◌, arith,
}
use ipci_blockchain.Runtime.Constants.{u_mito, mito, mul_balance}

-- `WeightToFeeCoefficient`; a `Perbill` is its number of parts
pub record Coefficient : Type 0 where
  pub degree : ℕ
  pub negative : Bool
  pub coeff_frac : ℕ
  pub coeff_integer : ℕ

-- The framework's `Perbill::from_rational_approximation`, and the weight `ExtrinsicBaseWeight`.
module _ (from_rational_approximation : ℕ → ℕ → ℕ) (extrinsic_base_weight : ℕ) where
  -- `WeightToFee::polynomial`
  unfoldable pub polynomial : List Coefficient
  polynomial =
      let p = u_mito in
      let q = mul_balance mito extrinsic_base_weight in
      record {
        degree = 1;
        negative = false;
        coeff_frac = from_rational_approximation (p % q) q;
        coeff_integer = p / q;
      }
      ∷ []

  -- If the approximation rounds down, as it is documented to, and the base weight of an extrinsic is
  -- above 1000, both parts of the coefficient are zero, so that weight is free of charge.
  pub weight_is_free :
      ((p q : ℕ) → p < q → from_rational_approximation p q * q ≤ p * 1_000_000_000)
      → 1000 < extrinsic_base_weight
      → extrinsic_base_weight < 2 ^ 64
      → polynomial ≡ record { degree = 1; negative = false; coeff_frac = 0; coeff_integer = 0 } ∷ []
  unfolding polynomial
  weight_is_free rounds_down big small = ground (arith, frac_zero, integer_zero)
    where
      q : ℕ
      q = mul_balance mito extrinsic_base_weight

      q_big : 1_000_000_000_000_000 < q
      q_big = omega arith

      frac_zero : from_rational_approximation (u_mito % q) q ≡ 0
      frac_zero = grind (arith, rounds_down (u_mito % q) q)

      integer_zero : u_mito / q ≡ 0
      integer_zero = grind arith

-- ===== src/Runtime/Votes.antt =====
-- node/runtime/src/impls.rs: `CurrencyToVoteHandler`, which converts balances to `u64` votes and back
-- for the election. The total issuance of `Balances` is an argument.
pub mod Total
pub mod Order
use native.Mathlib.Nat.{
  div-mul-le_self, lt-div-mul-add, mul-add-div_right, mul-div_cancel, div-add-mod, div-le_self,
  mul-div-le, le-div_iff_mul-le,
}
use ipci_blockchain.Prelude.{
  ℕ, ◌+◌, ◌-◌, ◌*◌, ◌/◌, ◌%◌, ◌^◌, ◌<◌, ◌≤◌, ◌≡◌, ◌∙◌, ap, sym, max, arith,
}

-- `u64::max_value() as Balance`
abbrev pub u64_max : ℕ
u64_max = 2 ^ 64 - 1

module _ (total_issuance : ℕ) where
  -- `CurrencyToVoteHandler::factor`
  unfoldable pub factor : ℕ
  factor = max (total_issuance / u64_max) 1

  -- `Convert<Balance, u64>::convert`; the cast `as u64` keeps the low 64 bits
  unfoldable pub convert : ℕ → ℕ
  convert x = x / factor % 2 ^ 64

  -- `Convert<u128, Balance>::convert`, in `u128`
  unfoldable pub convert_back : ℕ → ℕ
  convert_back x = x * factor % 2 ^ 128

  pub factor_pos : 0 < factor
  unfolding factor
  factor_pos = omega arith

  pub votes-lt : (x : ℕ) → x < 2 ^ 64 * factor → x / factor < 2 ^ 64
  votes-lt x h = grind (arith, factor_pos)

  -- A balance below 2 ^ 64 factors is converted with no loss but rounding.
  pub convert-eq-div : (x : ℕ) → x < 2 ^ 64 * factor → convert x ≡ x / factor
  unfolding convert
  convert-eq-div x h = omega (arith, votes-lt x h)

  back-lt : (v : ℕ) → total_issuance < 2 ^ 128 → v < 2 ^ 64 → v * factor < 2 ^ 128
  unfolding factor
  back-lt v ht hv = grind arith

  -- Votes are converted back with no overflow.
  pub convert_back-eq-mul :
      (v : ℕ) → total_issuance < 2 ^ 128 → v < 2 ^ 64 → convert_back v ≡ v * factor
  unfolding convert_back
  convert_back-eq-mul v ht hv = omega (arith, back-lt v ht hv)

  -- For an issuance that is a `u128` and a balance below 2^64 factors, neither the cast nor the product
  -- wraps around, and the balance comes back from its votes as the largest multiple of the factor that
  -- it is not below.
  pub convert_back-convert :
      (x : ℕ)
      → total_issuance < 2 ^ 128
      → x < 2 ^ 64 * factor
      → (convert x ≡ x / factor)
        × (convert x * factor < 2 ^ 128)
        × (convert_back (convert x) ≡ x / factor * factor)
        × (convert_back (convert x) ≤ x)
        × (x < convert_back (convert x) + factor)
  convert_back-convert x ht hx =
      let back = convert_back-eq-mul (x / factor) ht (votes-lt x hx) in
      (
        convert-eq-div x hx,
        rw (convert-eq-div x hx) (back-lt (x / factor) ht (votes-lt x hx)),
        rw (convert-eq-div x hx) back,
        rw (convert-eq-div x hx, back) (omega (arith, div-mul-le_self x factor)),
        rw (convert-eq-div x hx, back) (omega (arith, lt-div-mul-add {a = x} factor_pos)),
      )

  -- If the remainder of the total issuance is less than its quotient by `u64::max_value()`, no balance
  -- up to the total issuance loses votes to the cast.
  pub issuance_fits :
      (x : ℕ)
      → total_issuance % u64_max < total_issuance / u64_max
      → x ≤ total_issuance
      → convert x ≡ x / factor
  unfolding factor
  issuance_fits x room h = convert-eq-div x (grind arith)

  factor-eq-quotient : 0 < total_issuance / u64_max → factor ≡ total_issuance / u64_max
  unfolding factor
  factor-eq-quotient pos = omega arith

  -- The quotient of the total issuance by the factor exceeds `u64::max_value()` by that of the remainder.
  total_votes :
      0 < total_issuance / u64_max
      → total_issuance / (total_issuance / u64_max)
        ≡ u64_max + total_issuance % u64_max / (total_issuance / u64_max)
  total_votes pos =
      ap (λ n. n / (total_issuance / u64_max)) (sym (div-add-mod total_issuance u64_max))
      ∙ mul-add-div_right pos u64_max (total_issuance % u64_max)

  -- When the total issuance is at least `u64::max_value()` and its remainder by that at least its
  -- quotient, the cast wraps: `u64::max_value()` factors are a balance of no more than the issuance,
  -- with `u64::max_value()` votes, and the issuance itself has fewer.
  pub issuance_wraps :
      0 < total_issuance / u64_max
      → total_issuance / u64_max ≤ total_issuance % u64_max
      → (u64_max * factor ≤ total_issuance)
        × (convert (u64_max * factor) ≡ u64_max)
        × (convert total_issuance ≡ total_issuance % u64_max / (total_issuance / u64_max) - 1)
        × (convert total_issuance < convert (u64_max * factor))
  unfolding convert
  issuance_wraps pos over = (
    rw (factor-eq-quotient pos) (mul-div-le total_issuance u64_max),
    most,
    wrapped,
    rw (most, wrapped) (omega (arith, some_over, remainder_small)),
  )
    where
      some_over : 0 < total_issuance % u64_max / (total_issuance / u64_max)
      some_over = (le-div_iff_mul-le {k = total_issuance / u64_max} pos).1 (omega (arith, over))

      remainder_small :
          total_issuance % u64_max / (total_issuance / u64_max) ≤ total_issuance % u64_max
      remainder_small = div-le_self _ _

      most : convert (u64_max * factor) ≡ u64_max
      most =
          convert-eq-div (u64_max * factor) (omega (arith, factor_pos))
          ∙ mul-div_cancel u64_max factor_pos

      wrapped : convert total_issuance ≡ total_issuance % u64_max / (total_issuance / u64_max) - 1
      wrapped =
          rw (factor-eq-quotient pos, total_votes pos) (omega (arith, some_over, remainder_small))

-- ===== src/Runtime/Votes/Order.antt =====
-- That votes of node/runtime/src/impls.rs are ordered, and differ, as the balances do.
use native.Mathlib.Nat.{div-mul-le_self, lt-div-mul-add, le-div_iff_mul-le, add-mul}
use ipci_blockchain.Prelude.{ℕ, ◌+◌, ◌-◌, ◌*◌, ◌/◌, ◌^◌, ◌<◌, ◌≤◌, ◌≡◌, ap, ◌∙◌, arith}
use ipci_blockchain.Runtime.Votes.{factor, convert, convert-eq-div, factor_pos}

module _ (f : ℕ) (pos : 0 < f) where
  div-le-div : (x y : ℕ) → x ≤ y → x / f ≤ y / f
  div-le-div x y le = (le-div_iff_mul-le {k = f} pos).1 (omega (arith, le, div-mul-le_self x f))

  sub-mul : (q p : ℕ) → q ≤ p → p * f ≡ q * f + (p - q) * f
  sub-mul q p le =
      let whole : p ≡ q + (p - q) = omega arith in ap (λ n. n * f) whole ∙ add-mul q (p - q) f

  -- the difference of two quotients
  div-sub_close :
      (x y : ℕ) → x ≤ y → ((y / f - x / f) * f < (y - x) + f) × (y - x < (y / f - x / f) * f + f)
  div-sub_close x y le =
      let parts = sub-mul (x / f) (y / f) (div-le-div x y le) in
      let low = div-mul-le_self x f in
      let high = lt-div-mul-add {a = x} pos in
      let low' = div-mul-le_self y f in
      let high' = lt-div-mul-add {a = y} pos in
      (omega (arith, parts, low, high, low', high'), omega (arith, parts, low, high, low', high'))

module _ (total_issuance : ℕ) where
  -- Of two balances below 2^64 factors, the larger has no fewer votes, and the difference of the votes,
  -- as a balance, is the difference of the balances up to less than one factor, either way.
  pub votes-ordered :
      (x y : ℕ)
      → x ≤ y
      → y < 2 ^ 64 * factor total_issuance
      → (convert total_issuance x ≤ convert total_issuance y)
        × ((convert total_issuance y - convert total_issuance x) * factor total_issuance
            < (y - x) + factor total_issuance)
        × (y - x
            < (convert total_issuance y - convert total_issuance x) * factor total_issuance
              + factor total_issuance)
  votes-ordered x y le small =
      let f = factor total_issuance in
      let close = div-sub_close f (factor_pos total_issuance) x y le in
      rw (convert-eq-div total_issuance x (omega arith), convert-eq-div total_issuance y small)
        (div-le-div f (factor_pos total_issuance) x y le, close.0, close.1)

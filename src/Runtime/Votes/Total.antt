-- ===== src/Runtime/Votes/Total.antt =====
-- The votes of many balances together (node/runtime/src/impls.rs): the election adds them up as `u64`.
use native.Mathlib.Nat.{div-mul-le_self, le-div_iff_mul-le}
use ipci_blockchain.Prelude.{
  ℕ, ◌+◌, ◌*◌, ◌/◌, ◌%◌, ◌^◌, ◌<◌, ◌≤◌, List, [], ◌∷◌, map, ◌⊎◌, inl, inr, arith,
}
use ipci_blockchain.Runtime.Votes.{u64_max, factor, convert, convert_back, votes-lt}

abbrev pub sum : List ℕ → ℕ
sum [] = 0
sum (x ∷ xs) = x + sum xs

module _ (total_issuance : ℕ) where
  positive : 0 < factor total_issuance
  unfolding factor
  positive = omega arith

  convert-le : (x : ℕ) → convert total_issuance x ≤ x / factor total_issuance
  unfolding convert
  convert-le x = omega arith

  div-add : (f a b : ℕ) → 0 < f → a / f + b / f ≤ (a + b) / f
  div-add f a b pos =
      (le-div_iff_mul-le {k = f} pos).1 (grind (arith, div-mul-le_self a f, div-mul-le_self b f))

  sum-le-div :
      (xs : List ℕ) → sum (map (convert total_issuance) xs) ≤ sum xs / factor total_issuance
  sum-le-div [] = omega arith
  sum-le-div (x ∷ xs) =
      omega
        (arith, convert-le x, sum-le-div xs, div-add (factor total_issuance) x (sum xs) positive)

  -- the issuances at which no balance loses votes to the cast
  abbrev pub Fits : Type 0
  Fits = (total_issuance < u64_max) ⊎ (total_issuance % u64_max < total_issuance / u64_max)

  issuance-lt : Fits → total_issuance < 2 ^ 64 * factor total_issuance
  unfolding factor
  issuance-lt (inl small) = omega arith
  issuance-lt (inr room) = grind arith

  -- The sum of votes, put back into balances, is no more than the balances were.
  back-le :
      (v total : ℕ) → v ≤ total / factor total_issuance → convert_back total_issuance v ≤ total
  unfolding convert_back
  back-le v total h =
      omega
        (arith, (le-div_iff_mul-le {k = factor total_issuance} {x = v} {y = total} positive).0 h)

  -- Where the issuance is below `u64::max_value()`, or its remainder by that is less than its quotient,
  -- the votes of balances that are together at most the issuance are together a `u64`; and the votes
  -- together, converted back, are at most the balances together.
  pub votes_fit :
      (xs : List ℕ)
      → Fits
      → sum xs ≤ total_issuance
      → (sum (map (convert total_issuance) xs) < 2 ^ 64)
        × (convert_back total_issuance (sum (map (convert total_issuance) xs)) ≤ sum xs)
  votes_fit xs fits h = (
    omega
        (arith, sum-le-div xs, votes-lt total_issuance (sum xs) (omega (arith, issuance-lt fits))),
    back-le _ (sum xs) (sum-le-div xs),
  )

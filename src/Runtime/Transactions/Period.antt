-- ===== src/Runtime/Transactions/Period.antt =====
-- The period of the transactions of `create_transaction` (node/runtime/src/lib.rs).
use native.Mathlib.Nat.{add-zero, pow-suc, pow-le-pow_right}
use ipci_blockchain.Prelude.{
  ℕ, zero, suc, ◌+◌, ◌*◌, ◌^◌, ◌≤◌, ◌<◌, ◌≡◌, ap, ◌∙◌, subst, Option, some, leb, leb→le, le→leb,
  Bool-cases, inl, inr, arith,
}
use ipci_blockchain.Runtime.Transactions.{
  next_power_of_two_from, checked_next_power_of_two, period, half_or_two,
}

-- The least power of two that is at least a number.
abbrev Least : ℕ → Option ℕ → Type 0
Least n o = (j : ℕ) × (o ≡ some (2 ^ j)) × (n ≤ 2 ^ j) × (2 ^ j < 2 * n)

next_power_of_two_from-Least :
    (fuel k n : ℕ)
    → n ≤ 2 ^ (k + fuel)
    → 2 ^ k < 2 * n
    → Least n (next_power_of_two_from (suc fuel) (2 ^ k) n)
unfolding next_power_of_two_from
next_power_of_two_from-Least zero k n small big = (
  k,
  rw (le→leb n (2 ^ k) (subst (λ i. n ≤ 2 ^ i) (add-zero k) small)),
  subst (λ i. n ≤ 2 ^ i) (add-zero k) small,
  big,
)
next_power_of_two_from-Least (suc fuel) k n small big = elim (Bool-cases (leb n (2 ^ k))) [
  | inl h ↦ (k, rw h, leb→le n (2 ^ k) h, big)
  | inr h ↦
      let (j, found, enough, least) =
        next_power_of_two_from-Least fuel (suc k) n (subst (λ i. n ≤ 2 ^ i) (omega arith) small)
          (ground (arith, pow-suc 2 k)) in
      (
        j,
        rw h
            (subst (λ p. next_power_of_two_from (suc fuel) p n ≡ some (2 ^ j)) (pow-suc 2 k) found),
        enough,
        least,
      )
]

checked_next_power_of_two-Least :
    (n : ℕ) → 0 < n → n ≤ 2 ^ 31 → Least n (checked_next_power_of_two n)
checked_next_power_of_two-Least n positive small =
    next_power_of_two_from-Least 31 0 n small (omega arith)

pow-lt-pow_inv : (i j : ℕ) → 2 ^ i < 2 ^ j → i < j
pow-lt-pow_inv i j h = elim (Bool-cases (leb j i)) [
  | inl le ↦ absurd (omega (arith, pow-le-pow_right {n = 2} (omega arith) (leb→le j i le)))
  | inr gt ↦ ground arith
]

-- What is said of the period below.
abbrev pub IsBounded : ℕ → ℕ → Type 0
IsBounded count p = (k : ℕ) × (p ≡ 2 ^ k) × (2 ≤ k) × (k ≤ 16) × (p < count) × (count ≤ 2 * p)

half_of_least :
    (count k : ℕ) → checked_next_power_of_two count ≡ some (2 ^ suc k) → period count ≡ 2 ^ k
unfolding period
half_of_least count k found = ap half_or_two found ∙ omega (arith, pow-suc 2 k)

least-IsBounded :
    (count j : ℕ)
    → 4 < count
    → count ≤ 2 ^ 17
    → checked_next_power_of_two count ≡ some (2 ^ j)
    → count ≤ 2 ^ j
    → 2 ^ j < 2 * count
    → IsBounded count (period count)
least-IsBounded count zero big small found enough least = absurd (omega arith)
least-IsBounded count (suc k) big small found enough least =
    let half = half_of_least count k found in
    (
      k,
      half,
      omega (arith, pow-lt-pow_inv 2 (suc k) (omega arith)),
      omega (arith, pow-lt-pow_inv (suc k) 18 (omega arith)),
      omega (arith, pow-suc 2 k),
      omega (arith, pow-suc 2 k),
    )

-- For a number of kept block hashes above 4 and up to 2^17, the period is a power of two that an era
-- may have (between 4 and 65536), less than that number, and at least half of it.
pub period-IsBounded : (count : ℕ) → 4 < count → count ≤ 2 ^ 17 → IsBounded count (period count)
period-IsBounded count big small =
    let (j, found, enough, least) =
      checked_next_power_of_two-Least count (omega arith) (omega arith) in
    least-IsBounded count j big small found enough least

-- ===== src/Runtime/Tests/Entries.antt =====
-- The runtime's votes, APIs and benchmarks at concrete values.
use ipci_blockchain.Prelude.{
  ℕ, map, inr, ◌^◌, ◌<◌, ◌+◌, ◌*◌, ◌≤◌, ◌≡◌, refl, Bool, true, false, Option, none, some, [], ◌∷◌,
  arith,
}
use ipci_blockchain.Text.{Text, codes, Result, ok, err}
use ipci_blockchain.Runtime.Votes.{u64_max, convert, convert_back}
use ipci_blockchain.Runtime.Votes.Total.{sum, votes_fit}
use ipci_blockchain.Runtime.Apis.{Equivocations, submit_report_equivocation}
use ipci_blockchain.Runtime.Benchmarks.{
  Benchmarked, benchmarked, add_benchmarks, dispatch_benchmark,
}
use ipci_blockchain.Runtime.Benchmarks.Dispatched.{add_selected}

-- a state that knows one historical authority, and counts the reports that reach the pallet
abbrev historical : ℕ → ℕ × ℕ → Option ℕ
historical s (key, authority) = some (key + authority)

abbrev opened : Text → Option ℕ
opened [] = none
opened (c ∷ s) = some c

abbrev equivocations : Equivocations ℕ ℕ ℕ ℕ Text ℕ
equivocations = record {
  key_type = 40;
  prove = historical;
  encode = λ p. p ∷ [];
  decode = opened;
  submit_unsigned_report = λ equivocation p s. (some tt, s + p);
}

-- The proof of the authority 2 is 42, and reaches the pallet.
report_arrives : submit_report_equivocation equivocations 3 (42 ∷ []) 10 ≡ (some tt, 52)
unfolding submit_report_equivocation
report_arrives = refl

-- a configuration is the pallet whose benchmarks are run; those of the staking pallet fail
abbrev selects : Benchmarked → Benchmarked → Bool
selects Benchmarked.balances Benchmarked.balances = true
selects Benchmarked.staking Benchmarked.staking = true
selects c p = false

abbrev runs : Benchmarked → Benchmarked → Result Text ℕ
runs c Benchmarked.staking = err (codes "no validators")
runs c p = ok 7

balances_run : dispatch_benchmark (add_selected selects runs) Benchmarked.balances ≡ ok (7 ∷ [])
unfolding dispatch_benchmark add_benchmarks benchmarked
balances_run = refl

staking_fails :
    dispatch_benchmark (add_selected selects runs) Benchmarked.staking ≡ err (codes "no validators")
unfolding dispatch_benchmark add_benchmarks benchmarked
staking_fails = refl

utility_missing :
    dispatch_benchmark (add_selected selects runs) Benchmarked.utility
    ≡ err (codes "Benchmark not found for this pallet.")
unfolding dispatch_benchmark add_benchmarks benchmarked
utility_missing = refl

-- the stakes of three validators, on the issuance of a network of some 10^21 units
votes_fit_example :
    (sum (map (convert (5 * u64_max + 3)) (u64_max ∷ (2 * u64_max) ∷ 7 ∷ [])) < 2 ^ 64)
    × (convert_back
          (5 * u64_max + 3)
          (sum (map (convert (5 * u64_max + 3)) (u64_max ∷ (2 * u64_max) ∷ 7 ∷ [])))
        ≤ sum (u64_max ∷ (2 * u64_max) ∷ 7 ∷ []))
votes_fit_example =
    votes_fit (5 * u64_max + 3) (u64_max ∷ (2 * u64_max) ∷ 7 ∷ []) (inr (omega arith)) (omega arith)

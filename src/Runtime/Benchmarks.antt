-- ===== src/Runtime/Benchmarks.antt =====
-- node/runtime/src/lib.rs, `dispatch_benchmark`: which benchmarks of the pallets are run. The macro
-- `add_benchmark!` of the framework, which adds the batches of one pallet to those so far if the
-- configuration selects the pallet, is a parameter, and so is the list of storage keys that it is given.
pub mod Dispatched
use ipci_blockchain.Prelude.{ℕ, List, [], ◌∷◌}
use ipci_blockchain.Text.{Text, codes, Result, ok, err, ◌>>=◌}

-- the pallets that are benchmarked, in the order of the source
pub data Benchmarked : Type 0 where
  babe balances grandpa identity im_online indices multisig offences session staking : Benchmarked
  system timestamp utility : Benchmarked

unfoldable pub benchmarked : List Benchmarked
benchmarked =
    babe ∷ balances ∷ grandpa ∷ identity ∷ im_online ∷ indices ∷ multisig ∷ offences ∷ session
    ∷ staking ∷ system ∷ timestamp ∷ utility ∷ []

module _ {Config Batch : Type 0}
    (add_benchmark : Config → Benchmarked → List Batch → Result Text (List Batch)) where
  -- the lines of `add_benchmark!`, each of which may return from the function
  unfoldable pub add_benchmarks : Config → List Benchmarked → List Batch → Result Text (List Batch)
  add_benchmarks config [] batches = ok batches
  add_benchmarks config (p ∷ ps) batches = do
    more ← add_benchmark config p batches
    add_benchmarks config ps more

  abbrev pub unless_empty : List Batch → Result Text (List Batch)
  unless_empty [] = err (codes "Benchmark not found for this pallet.")
  unless_empty (b ∷ bs) = ok (b ∷ bs)

  -- `dispatch_benchmark`
  unfoldable pub dispatch_benchmark : Config → Result Text (List Batch)
  dispatch_benchmark config = do
    batches ← add_benchmarks config benchmarked []
    unless_empty batches

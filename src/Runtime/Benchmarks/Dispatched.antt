-- ===== src/Runtime/Benchmarks/Dispatched.antt =====
-- Which batches `dispatch_benchmark` of node/runtime/src/lib.rs returns.
use mathlib.Core.List.{append_assoc, append-nil}
use ipci_blockchain.Prelude.{
  Bool, ◌≡◌, refl, ap, sym, List, [], ◌∷◌, ◌++◌, if◌then◌else◌, Bool-cases, inl, inr,
}
use ipci_blockchain.Text.{Text, Result, ok, err, ◌>>=◌, Result-cases}
use ipci_blockchain.Runtime.Benchmarks.{
  Benchmarked, benchmarked, add_benchmarks, dispatch_benchmark, unless_empty,
}

bind_ok : {A : Type 0} (r : Result Text A) → (r >>= λ a. ok a) ≡ r
bind_ok (ok a) = refl
bind_ok (err e) = refl

module _ {Config Batch : Type 0} (selects : Config → Benchmarked → Bool)
    (run : Config → Benchmarked → Result Text Batch) where
  -- the batches of the selected pallets among some, or the first error
  pub run_selected : Config → List Benchmarked → Result Text (List Batch)
  run_selected config [] = ok []
  run_selected config (p ∷ ps) =
      if selects config p
      then (run config p >>= λ b. run_selected config ps >>= λ bs. ok (b ∷ bs))
      else run_selected config ps

  -- what the framework's macro does: it runs the pallet's benchmarks if they are selected
  abbrev pub add_selected : Config → Benchmarked → List Batch → Result Text (List Batch)
  add_selected config p batches =
      if selects config p then (run config p >>= λ b. ok (batches ++ b ∷ [])) else ok batches

  add_benchmarks-run_selected :
      (add_benchmark : Config → Benchmarked → List Batch → Result Text (List Batch))
      (config : Config)
      → ((p : Benchmarked) (batches : List Batch)
          → add_benchmark config p batches ≡ add_selected config p batches)
      → (ps : List Benchmarked) (batches : List Batch)
      → add_benchmarks add_benchmark config ps batches
        ≡ (run_selected config ps >>= λ bs. ok (batches ++ bs))
  unfolding add_benchmarks run_selected
  add_benchmarks-run_selected add config adds [] batches = ap ok (sym (append-nil batches))
  add_benchmarks-run_selected add config adds (p ∷ ps) batches =
      elim (Bool-cases (selects config p)) [
        | inr skipped ↦
            rw (adds p batches, skipped) (add_benchmarks-run_selected add config adds ps batches)
        | inl selected ↦ elim (Result-cases (run config p)) [
          | inr (e, fails) ↦ rw (adds p batches, selected, fails)
          | inl (b, runs) ↦ elim (Result-cases (run_selected config ps)) [
            | inl (bs, rest) ↦
                rw
                  (
                    adds p batches,
                    selected,
                    runs,
                    add_benchmarks-run_selected add config adds ps (batches ++ b ∷ []),
                    rest,
                  )
                  (ap ok (append_assoc batches (b ∷ []) bs))
            | inr (e, rest) ↦ rw (
              adds p batches,
              selected,
              runs,
              add_benchmarks-run_selected add config adds ps (batches ++ b ∷ []),
              rest,
            )
          ]
        ]
      ]

  -- Where the framework's macro adds the batch of a pallet that the configuration selects, and returns
  -- its error, the batches are those of the selected pallets in the order of the source, or the first
  -- error, or an error where no pallet is selected.
  pub dispatch_benchmark-run_selected :
      (add_benchmark : Config → Benchmarked → List Batch → Result Text (List Batch))
      (config : Config)
      → ((p : Benchmarked) (batches : List Batch)
          → add_benchmark config p batches ≡ add_selected config p batches)
      → dispatch_benchmark add_benchmark config
        ≡ (run_selected config benchmarked >>= unless_empty add_benchmark)
  unfolding dispatch_benchmark
  dispatch_benchmark-run_selected add config adds =
      rw (add_benchmarks-run_selected add config adds benchmarked [])
        (ap (λ r. r >>= unless_empty add) (bind_ok (run_selected config benchmarked)))

-- ===== src/Datalog/Weight.antt =====
-- pallets/datalog/src/default_weight.rs: the declared weights of the calls.
pub mod Accesses
use ipci_blockchain.Prelude.{ℕ, ◌+◌, ◌%◌, ◌^◌, ◌-◌, min}

-- `saturating_add` of `u64`
abbrev saturating_add : ℕ → ℕ → ℕ
saturating_add a b = min (a + b) (2 ^ 64 - 1)

-- `RuntimeDbWeight` of the framework: the weight of a number of reads, and of writes
pub record DbWeight : Type 0 where
  pub reads : ℕ → ℕ
  pub writes : ℕ → ℕ

-- `WeightInfo::record` of `()`
unfoldable pub record_weight : DbWeight → ℕ
record_weight db = saturating_add (saturating_add 500_000 (db.reads 2)) (db.writes 3)

-- `WeightInfo::erase` of `()`; the sum `1 + win` is that of `u64`
unfoldable pub erase_weight : DbWeight → ℕ → ℕ
erase_weight db win =
    saturating_add (saturating_add 100_000 (db.reads 1)) (db.writes ((1 + win) % 2 ^ 64))

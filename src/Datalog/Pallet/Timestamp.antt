-- ===== src/Datalog/Pallet/Timestamp.antt =====
-- The clock of the chain, which the calls of pallets/datalog/src/lib.rs read.
use mathlib.Core.Path.{fun_ext}
use ipci_blockchain.Prelude.{ℕ, ◌≡◌, ap, ap₂, map}
use ipci_blockchain.Datalog.RingBuffer.Window.{slots}
use ipci_blockchain.Datalog.Pallet.{Trait}
use ipci_blockchain.Datalog.Pallet.Laws.{IsTrait}
use ipci_blockchain.Datalog.Pallet.Outcome.{log}

-- The clock of the chain, which the timestamp of each block sets. It is not part of the pallet.
pub record Clock {State Origin AccountId Moment Record : Type 0}
    (t : Trait State Origin AccountId Moment Record) : Type 0 where
  pub set : Moment → State → State
  pub now-set : (m : Moment) (s : State) → t.now (set m s) ≡ m
  pub index-set :
      (m : Moment) (s : State) (a : AccountId)
      → t.datalog_index.get (set m s) a ≡ t.datalog_index.get s a
  pub item-set :
      (m : Moment) (s : State) (a : AccountId) (i : ℕ)
      → t.datalog_item.get (set m s) (a, i) ≡ t.datalog_item.get s (a, i)

module _ {State Origin AccountId Moment Record : Type 0}
    (t : Trait State Origin AccountId Moment Record) (laws : IsTrait t) (clock : Clock t) where
  open t use {window_size, datalog_index, datalog_item}

  pub log-set : (m : Moment) (s : State) → log t (clock.set m s) ≡ log t s
  unfolding log
  log-set m s = fun_ext (λ a.
      ap₂ map (fun_ext (λ i. clock.item-set m s a i))
        (ap (λ idx. slots idx window_size) (clock.index-set m s a)))

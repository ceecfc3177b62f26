-- ===== src/Datalog/Pallet/Laws.antt =====
-- What the proofs about pallets/datalog/src/lib.rs assume of the framework.
use ipci_blockchain.Prelude.{◌^◌, ◌<◌, ◌≡◌, []}
use ipci_blockchain.Datalog.RingBuffer.{default_index}
use ipci_blockchain.Datalog.Storage.{IsStorageMap, IsSeparate}
use ipci_blockchain.Datalog.Pallet.{Trait, default_item}

-- The three maps behave as maps and do not overlap, accounts can be compared, writing the old map does
-- not move the clock, and the window size is a positive `u64`.
pub record IsTrait {State Origin AccountId Moment Record : Type 0}
    (t : Trait State Origin AccountId Moment Record) : Type 0 where
  pub account_discrete : Discrete AccountId
  pub window_pos : 0 < t.window_size
  pub window_u64 : t.window_size < 2 ^ 64
  pub old_map : IsStorageMap t.datalog []
  pub index_map : IsStorageMap t.datalog_index default_index
  pub item_map : IsStorageMap t.datalog_item (default_item t)
  pub old_index : IsSeparate t.datalog t.datalog_index
  pub old_item : IsSeparate t.datalog t.datalog_item
  pub index_old : IsSeparate t.datalog_index t.datalog
  pub index_item : IsSeparate t.datalog_index t.datalog_item
  pub item_old : IsSeparate t.datalog_item t.datalog
  pub item_index : IsSeparate t.datalog_item t.datalog_index
  pub now-remove : (a : AccountId) (s : State) → t.now (t.datalog.remove a s) ≡ t.now s

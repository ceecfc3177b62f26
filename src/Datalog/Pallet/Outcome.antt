-- ===== src/Datalog/Pallet/Outcome.antt =====
-- What the calls `record` and `erase` of pallets/datalog/src/lib.rs return, and the state they leave.
use ipci_blockchain.Prelude.{ℕ, ◌≤◌, ◌≡◌, ap, some, List, [], ◌∷◌, map, foldl, leb, true}
use ipci_blockchain.Datalog.RingBuffer.Bounds.{IsValid}
use ipci_blockchain.Datalog.RingBuffer.Window.{slots}
use ipci_blockchain.Datalog.RingBuffer.Slots.{fold_iter-slots}
use ipci_blockchain.Datalog.Pallet.{
  Trait, ok, new_record, erased, RingBufferItem, record_data, erase, write_item, ◌>>=◌,
}
use ipci_blockchain.Datalog.Pallet.Laws.{IsTrait}

module _ {State Origin AccountId Moment Record : Type 0}
    (t : Trait State Origin AccountId Moment Record) where
  open t use {
    ensure_signed, now, size_hint, window_size, maximum_message_size, datalog, datalog_index,
    datalog_item,
  }

  -- the item that `record` makes
  abbrev pub new_item : Record → State → RingBufferItem Moment Record
  new_item rec s = record { 0 = now s; 1 = rec }

  -- the state after an accepted `record`
  unfoldable pub recorded : AccountId → Record → State → State
  recorded a rec s =
      datalog_index.mutate a (write_item t a (new_item rec (datalog.remove a s)))
        (datalog.remove a s)

  abbrev pub remove_item : AccountId → State → ℕ → State
  remove_item a s i = datalog_item.remove (a, i) s

  -- the state after an accepted `erase`, where the loop visits the slots `l`
  unfoldable pub cleared : AccountId → List ℕ → State → State
  cleared a l s = foldl (remove_item a) (datalog_index.remove a (datalog.remove a s)) l

  -- the items of an account, the oldest first
  unfoldable pub log : State → AccountId → List (RingBufferItem Moment Record)
  log s a = map (λ i. datalog_item.get s (a, i)) (slots (datalog_index.get s a) window_size)

module _ {State Origin AccountId Moment Record : Type 0}
    (t : Trait State Origin AccountId Moment Record) (laws : IsTrait t) where
  open t use {
    ensure_signed, now, size_hint, window_size, maximum_message_size, datalog, datalog_index,
    datalog_item,
  }

  pub record_data-ok :
      (origin : Origin) (a : AccountId) (rec : Record) (s : State)
      → leb (size_hint rec) maximum_message_size ≡ true
      → ensure_signed origin ≡ ok a
      → record_data t origin rec s ≡ some (ok tt, recorded t a rec s, new_record a (now s) rec ∷ [])
  unfolding record_data recorded
  record_data-ok origin a rec s small signed =
      rw (small, signed)
        (ap (λ m. some (ok tt, recorded t a rec s, new_record a m rec ∷ [])) (laws.now-remove a s))

  pub erase-ok :
      (fuel : ℕ) (origin : Origin) (a : AccountId) (s : State)
      → window_size ≤ fuel
      → IsValid (datalog_index.get s a) window_size
      → ensure_signed origin ≡ ok a
      → erase t fuel origin s
        ≡ some (ok tt, cleared t a (slots (datalog_index.get s a) window_size) s, erased a ∷ [])
  unfolding erase cleared
  erase-ok fuel origin a s enough v signed =
      rw (signed, laws.index_map.take_lem, laws.old_index.get-remove)
        (rw (
          fold_iter-slots fuel (remove_item t a) (datalog_index.remove a (datalog.remove a s)) v
              enough,
          ◌>>=◌,
        ))

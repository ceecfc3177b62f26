-- ===== src/Datalog/Pallet/Recorded.antt =====
-- The storage of pallets/datalog/src/lib.rs after an accepted `record`.
use mathlib.Core.Path.{fun_ext}
use mathlib.Core.List.{map-append}
use ipci_blockchain.Prelude.{
  ℕ, ◌-◌, ◌≡◌, ◌≢◌, sym, ap, ap₂, [], ◌∷◌, ◌++◌, map, keep_last, map-keep_last,
}
use ipci_blockchain.Datalog.RingBuffer.{add}
use ipci_blockchain.Datalog.RingBuffer.Bounds.{IsValid}
use ipci_blockchain.Datalog.RingBuffer.Window.{slots}
use ipci_blockchain.Datalog.RingBuffer.Slots.{slots-add}
use ipci_blockchain.Datalog.RingBuffer.Contents.{map-slots}
use ipci_blockchain.Datalog.Pallet.{Trait}
use ipci_blockchain.Datalog.Pallet.Laws.{IsTrait}
use ipci_blockchain.Datalog.Pallet.Outcome.{new_item, recorded, log}

module _ {State Origin AccountId Moment Record : Type 0}
    (t : Trait State Origin AccountId Moment Record) (laws : IsTrait t) where
  open t use {now, window_size, datalog, datalog_index, datalog_item}

  -- the index after `record`
  pub index-recorded_self :
      (a : AccountId) (rec : Record) (s : State)
      → datalog_index.get (recorded t a rec s) a ≡ (add (datalog_index.get s a) window_size).1
  unfolding recorded
  index-recorded_self a rec s =
      rw (laws.index_map.mutate_lem, laws.index_map.get-insert_self, laws.old_index.get-remove)

  pub index-recorded_ne :
      (a b : AccountId) (rec : Record) (s : State)
      → a ≢ b
      → datalog_index.get (recorded t a rec s) b ≡ datalog_index.get s b
  unfolding recorded
  index-recorded_ne a b rec s ne = rw (
    laws.index_map.mutate_lem,
    laws.index_map.get-insert_ne _ _ _ _ ne,
    laws.item_index.get-insert,
    laws.old_index.get-remove,
  )

  -- the items after `record`
  pub item-recorded_self :
      (a : AccountId) (rec : Record) (s : State)
      → datalog_item.get (recorded t a rec s) (a, (add (datalog_index.get s a) window_size).0)
        ≡ new_item t rec s
  unfolding recorded
  item-recorded_self a rec s = rw (
    laws.index_map.mutate_lem, laws.index_item.get-insert, laws.old_index.get-remove,
    laws.item_map.get-insert_self, laws.now-remove,
  )

  pub item-recorded_ne :
      (a b : AccountId) (i : ℕ) (rec : Record) (s : State)
      → ◌≢◌ {A = AccountId × ℕ} (a, (add (datalog_index.get s a) window_size).0) (b, i)
      → datalog_item.get (recorded t a rec s) (b, i) ≡ datalog_item.get s (b, i)
  unfolding recorded
  item-recorded_ne a b i rec s ne = rw (
    laws.index_map.mutate_lem,
    laws.index_item.get-insert,
    laws.old_index.get-remove,
    laws.item_map.get-insert_ne _ _ _ _ ne,
    laws.old_item.get-remove,
  )

  -- the log after `record`
  pub log-recorded_self :
      (a : AccountId) (rec : Record) (s : State)
      → IsValid (datalog_index.get s a) window_size
      → log t (recorded t a rec s) a
        ≡ keep_last (window_size - 1) (log t s a ++ new_item t rec s ∷ [])
  unfolding log add
  log-recorded_self a rec s v =
      rw (index-recorded_self a rec s, slots-add window_size v, map-keep_last, map-append)
        (ap (keep_last (window_size - 1)) (
          ap₂ ◌++◌
            (map-slots _ _ v
              (λ i ne. item-recorded_ne a a i rec s (λ e. ne (sym (ap (λ p. p.1) e)))))
            (ap (λ x. x ∷ []) (item-recorded_self a rec s))))

  pub log-recorded_ne :
      (a b : AccountId) (rec : Record) (s : State)
      → a ≢ b
      → log t (recorded t a rec s) b ≡ log t s b
  unfolding log
  log-recorded_ne a b rec s ne = rw (index-recorded_ne a b rec s ne) (
      ap (λ f. map f (slots (datalog_index.get s b) window_size))
        (fun_ext (λ i. item-recorded_ne a b i rec s (λ e. ne (ap (λ p. p.0) e)))))

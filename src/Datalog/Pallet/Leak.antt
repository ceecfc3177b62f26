-- ===== src/Datalog/Pallet/Leak.antt =====
-- What `erase` of pallets/datalog/src/lib.rs leaves in storage.
use ipci_blockchain.Prelude.{
  ℕ, ◌+◌, ◌≤◌, ◌<◌, ◌≡◌, ◌≢◌, refl, subst, ap, ◌∙◌, some, true, List, [], ◌∷◌, foldl, leb,
}
use ipci_blockchain.Datalog.RingBuffer.Bounds.{IsValid, add-IsValid}
use ipci_blockchain.Datalog.RingBuffer.Window.{size, slots}
use ipci_blockchain.Datalog.RingBuffer.Contents.{AllSlots, slots-ne-end, head-slots, add-ne-start}
use ipci_blockchain.Datalog.RingBuffer.Slots.{end-add_full}
use ipci_blockchain.Datalog.Pallet.{
  Trait, ok, RingBufferItem, new_record, erased, record_data, erase,
}
use ipci_blockchain.Datalog.Pallet.Laws.{IsTrait}
use ipci_blockchain.Datalog.Pallet.Outcome.{
  remove_item, recorded, cleared, log, record_data-ok, erase-ok,
}
use ipci_blockchain.Datalog.Pallet.Recorded.{index-recorded_self, item-recorded_ne}
use ipci_blockchain.Datalog.Pallet.Cleared.{log-cleared_self}

module _ {State Origin AccountId Moment Record : Type 0}
    (t : Trait State Origin AccountId Moment Record) (laws : IsTrait t) where
  open t use {
    ensure_signed, now, size_hint, window_size, maximum_message_size, datalog, datalog_index,
    datalog_item,
  }

  item-kept :
      (a : AccountId) (j : ℕ) (l : List ℕ) (s : State)
      → AllSlots (λ i. i ≢ j) l
      → datalog_item.get (foldl (remove_item t a) s l) (a, j) ≡ datalog_item.get s (a, j)
  item-kept a j [] s h = refl
  item-kept a j (i ∷ l) s h =
      item-kept a j l (remove_item t a s i) h.1
      ∙ laws.item_map.get-remove_ne _ _ _ (λ e. h.0 (ap (λ p. p.1) e))

  -- The loop of `erase` does not touch the slot `end`.
  end-kept :
      (a : AccountId) (s : State)
      → IsValid (datalog_index.get s a) window_size
      → datalog_item.get
          (cleared t a (slots (datalog_index.get s a) window_size) s)
          (a, (datalog_index.get s a).end)
        ≡ datalog_item.get s (a, (datalog_index.get s a).end)
  unfolding cleared
  end-kept a s v =
      item-kept a _ (slots (datalog_index.get s a) window_size) _ (slots-ne-end v)
      ∙ laws.index_item.get-remove _ _ _
      ∙ laws.old_item.get-remove _ _ _

  -- A full log evicts its oldest record `x` when the account sends another one. If the account then
  -- erases its log, both calls succeed and the log reads as empty, but `x` is still in storage, in the
  -- slot where it was.
  pub evicted_survives_erase :
      (fuel : ℕ) (origin : Origin) (a : AccountId) (rec : Record) (s : State)
      (x : RingBufferItem Moment Record) (rest : List (RingBufferItem Moment Record))
      → window_size ≤ fuel
      → IsValid (datalog_index.get s a) window_size
      → size (datalog_index.get s a) window_size + 1 ≡ window_size
      → log t s a ≡ x ∷ rest
      → leb (size_hint rec) maximum_message_size ≡ true
      → ensure_signed origin ≡ ok a
      → (s' s'' : State) × (record_data t origin rec s
          ≡ some (ok tt, s', new_record a (now s) rec ∷ []))
        × (erase t fuel origin s' ≡ some (ok tt, s'', erased a ∷ []))
        × (log t s'' a ≡ [])
        × (datalog_item.get s'' (a, (datalog_index.get s a).start) ≡ x)
  unfolding log
  evicted_survives_erase fuel origin a rec s x rest enough v full e small signed = (
    recorded t a rec s,
    cleared t a (slots (datalog_index.get (recorded t a rec s) a) window_size) (recorded t a rec s),
    record_data-ok t laws origin a rec s small signed,
    erase-ok t laws fuel origin a (recorded t a rec s) enough v' signed,
    log-cleared_self t laws a _ _,
    subst (λ i. datalog_item.get after (a, i) ≡ x) ends
        (end-kept a (recorded t a rec s) v'
          ∙ ap (λ i. datalog_item.get (recorded t a rec s) (a, i)) ends
          ∙ item-recorded_ne t laws a a _ rec s
              (λ p. add-ne-start window_size v oldest.0 (ap (λ q. q.1) p))
          ∙ oldest.1),
  )
    where
      after : State
      after =
          cleared t a (slots (datalog_index.get (recorded t a rec s) a) window_size)
            (recorded t a rec s)

      v' : IsValid (datalog_index.get (recorded t a rec s) a) window_size
      v' = rw (index-recorded_self t laws a rec s) (add-IsValid window_size v)

      ends : (datalog_index.get (recorded t a rec s) a).end ≡ (datalog_index.get s a).start
      ends = rw (index-recorded_self t laws a rec s) (end-add_full window_size v full)

      oldest :
          (0 < size (datalog_index.get s a) window_size)
          × (datalog_item.get s (a, (datalog_index.get s a).start) ≡ x)
      oldest =
          head-slots (λ i. datalog_item.get s (a, i)) (datalog_index.get s a) window_size x rest e

-- ===== src/Datalog/Pallet/Leftover.antt =====
-- The items that the storage of pallets/datalog/src/lib.rs holds in slots that are not in use, through
-- `record` and `erase`.
use native.Mathlib.Decide.{dec_lt, ℕ_discrete}
use ipci_blockchain.Prelude.{
  ℕ, zero, suc, ◌+◌, ◌<◌, ◌≡◌, ◌≢◌, inl, inr, sym, ap, ◌∙◌, subst, List, [], ◌∷◌, foldl, arith,
}
use ipci_blockchain.Datalog.RingBuffer.{RingBufferIndex, add}
use ipci_blockchain.Datalog.RingBuffer.Bounds.{IsValid, slot_after}
use ipci_blockchain.Datalog.RingBuffer.Window.{size, window, slots, slot_after-lt, size-lt}
use ipci_blockchain.Datalog.RingBuffer.Unused.{
  offset, offset-slot_after, IsUnused, add-IsUnused_room, add-IsUnused_full,
}
use ipci_blockchain.Datalog.Pallet.{Trait, default_item}
use ipci_blockchain.Datalog.Pallet.Laws.{IsTrait}
use ipci_blockchain.Datalog.Pallet.Outcome.{remove_item, recorded, cleared}
use ipci_blockchain.Datalog.Pallet.Recorded.{index-recorded_self, item-recorded_ne}

module _ {State Origin AccountId Moment Record : Type 0}
    (t : Trait State Origin AccountId Moment Record) (laws : IsTrait t) where
  open t use {window_size, datalog_index, datalog_item}

  -- at most one item of the account stands in a slot that is not in use
  pub record OneLeftover (s : State) (a : AccountId) : Type 0 where
    pub slot : ℕ
    pub slot_in : slot < window_size
    pub elsewhere :
        (i : ℕ)
        → i ≢ slot
        → IsUnused (datalog_index.get s a) window_size i
        → datalog_item.get s (a, i) ≡ default_item t

  -- the state is the same for the account
  abbrev pub Same : State → State → AccountId → Type 0
  Same s s' a =
      (datalog_index.get s' a ≡ datalog_index.get s a)
      × ((i : ℕ) → datalog_item.get s' (a, i) ≡ datalog_item.get s (a, i))

  pub Same-OneLeftover :
      (s s' : State) (a : AccountId) → Same s s' a → OneLeftover s a → OneLeftover s' a
  Same-OneLeftover s s' a (index, item) o = record {
    slot = o.slot;
    slot_in = o.slot_in;
    elsewhere = λ i ne unused.
        item i ∙ o.elsewhere i ne (subst (λ idx. IsUnused idx window_size i) index unused);
  }

  pub recorded-OneLeftover :
      (a : AccountId) (rec : Record) (s : State)
      → IsValid (datalog_index.get s a) window_size
      → OneLeftover s a
      → OneLeftover (recorded t a rec s) a
  unfolding add
  recorded-OneLeftover a rec s v o = elim (ℕ_discrete (size idx window_size + 1) window_size) [
    | no ne ↦ record {
      slot = o.slot;
      slot_in = o.slot_in;
      elsewhere = λ i off unused.
          let (before, not_written) =
            add-IsUnused_room window_size i v (omega (arith, size-lt v)) (after i unused) in
          kept i (λ e. not_written (sym e)) ∙ o.elsewhere i off before;
    }
    | yes full ↦ record {
      slot = idx.start;
      slot_in = v.start_in;
      elsewhere = λ i off unused. elim (dec_lt i window_size) [
        | yes lt ↦ absurd (off (add-IsUnused_full window_size i v full lt (after i unused)))
        | no ge ↦
            kept i (λ e. ge (subst (λ j. j < window_size) e v.end_in))
            ∙ o.elsewhere i (λ e. ge (subst (λ j. j < window_size) (sym e) o.slot_in))
                (inl (omega arith))
      ];
    }
  ]
    where
      idx : RingBufferIndex
      idx = datalog_index.get s a

      after :
          (i : ℕ)
          → IsUnused (datalog_index.get (recorded t a rec s) a) window_size i
          → IsUnused (add idx window_size).1 window_size i
      after i = subst (λ idx'. IsUnused idx' window_size i) (index-recorded_self t laws a rec s)

      kept :
          (i : ℕ)
          → idx.end ≢ i
          → datalog_item.get (recorded t a rec s) (a, i) ≡ datalog_item.get s (a, i)
      kept i ne = item-recorded_ne t laws a a i rec s (λ e. ne (ap (λ p. p.1) e))

  -- a slot that is empty stays so while others are removed
  removes-default :
      (a : AccountId) (j : ℕ) (l : List ℕ) (s : State)
      → datalog_item.get s (a, j) ≡ default_item t
      → datalog_item.get (foldl (remove_item t a) s l) (a, j) ≡ default_item t
  removes-default a j [] s empty = empty
  removes-default a j (i ∷ l) s empty =
      removes-default a j l (remove_item t a s i) (elim (ℕ_discrete i j) [
        | yes e ↦
            subst (λ k. datalog_item.get (remove_item t a s i) (a, k) ≡ default_item t) e
              (laws.item_map.get-remove_self (a, i) s)
        | no ne ↦ laws.item_map.get-remove_ne (a, i) (a, j) s (λ e. ne (ap (λ p. p.1) e)) ∙ empty
      ])

  -- the loop of `erase` empties the slots that it visits
  removes-window :
      (a : AccountId) (j k n : ℕ) (s : State)
      → k < window_size
      → j < window_size
      → offset window_size k j < n
      → datalog_item.get (foldl (remove_item t a) s (window window_size k n)) (a, j)
        ≡ default_item t
  unfolding window
  removes-window a j k zero s hk hj h = absurd (omega arith)
  removes-window a j k (suc n) s hk hj h = elim (ℕ_discrete j k) [
    | yes e ↦
        removes-default a j (window window_size (slot_after window_size k) n) (remove_item t a s k)
          (subst (λ i. datalog_item.get (remove_item t a s k) (a, i) ≡ default_item t) (sym e)
            (laws.item_map.get-remove_self (a, k) s))
    | no ne ↦
        removes-window a j (slot_after window_size k) n (remove_item t a s k)
          (slot_after-lt window_size k hk) hj
          (omega (arith, offset-slot_after window_size k j hk hj ne))
  ]

  pub cleared-OneLeftover :
      (a : AccountId) (s : State)
      → IsValid (datalog_index.get s a) window_size
      → OneLeftover s a
      → OneLeftover (cleared t a (slots (datalog_index.get s a) window_size) s) a
  unfolding cleared
  cleared-OneLeftover a s v o = record {
    slot = o.slot;
    slot_in = o.slot_in;
    elsewhere = λ i off unused. elim (dec_lt i window_size) [
      | no ge ↦
          removes-default a i (slots idx window_size) begun
            (begun_default i off (inl (omega arith)))
      | yes lt ↦ elim (dec_lt (offset window_size idx.start i) (size idx window_size)) [
        | yes visited ↦
            removes-window a i idx.start (size idx window_size) begun v.start_in lt visited
        | no skipped ↦
            removes-default a i (slots idx window_size) begun
              (begun_default i off (inr (omega arith)))
      ]
    ];
  }
    where
      idx : RingBufferIndex
      idx = datalog_index.get s a

      begun : State
      begun = datalog_index.remove a (t.datalog.remove a s)

      begun_default :
          (i : ℕ)
          → i ≢ o.slot
          → IsUnused idx window_size i
          → datalog_item.get begun (a, i) ≡ default_item t
      begun_default i off unused =
          laws.index_item.get-remove _ _ _
          ∙ laws.old_item.get-remove _ _ _
          ∙ o.elsewhere i off unused

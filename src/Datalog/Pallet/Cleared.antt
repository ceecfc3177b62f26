-- ===== src/Datalog/Pallet/Cleared.antt =====
-- The storage of pallets/datalog/src/lib.rs after an accepted `erase`.
use mathlib.Core.Path.{fun_ext}
use ipci_blockchain.Prelude.{ℕ, ◌≡◌, ◌≢◌, refl, ap, ap₂, ◌∙◌, List, [], ◌∷◌, map, foldl}
use ipci_blockchain.Datalog.RingBuffer.{default_index}
use ipci_blockchain.Datalog.RingBuffer.Window.{slots}
use ipci_blockchain.Datalog.RingBuffer.Contents.{slots-default}
use ipci_blockchain.Datalog.Pallet.{Trait}
use ipci_blockchain.Datalog.Pallet.Laws.{IsTrait}
use ipci_blockchain.Datalog.Pallet.Outcome.{remove_item, cleared, log}

module _ {State Origin AccountId Moment Record : Type 0}
    (t : Trait State Origin AccountId Moment Record) (laws : IsTrait t) where
  open t use {now, window_size, datalog, datalog_index, datalog_item}

  -- the loop of `erase` leaves the index and the old map alone
  index-cleared :
      (a b : AccountId) (l : List ℕ) (s : State)
      → datalog_index.get (foldl (remove_item t a) s l) b ≡ datalog_index.get s b
  index-cleared a b [] s = refl
  index-cleared a b (i ∷ l) s =
      index-cleared a b l (remove_item t a s i) ∙ laws.item_index.get-remove _ _ _

  -- and the items of other accounts
  pub item-cleared_ne :
      (a b : AccountId) (l : List ℕ) (s : State) (j : ℕ)
      → a ≢ b
      → datalog_item.get (foldl (remove_item t a) s l) (b, j) ≡ datalog_item.get s (b, j)
  item-cleared_ne a b [] s j ne = refl
  item-cleared_ne a b (i ∷ l) s j ne =
      item-cleared_ne a b l (remove_item t a s i) j ne
      ∙ laws.item_map.get-remove_ne _ _ _ (λ e. ne (ap (λ p. p.0) e))

  pub index-cleared_self :
      (a : AccountId) (l : List ℕ) (s : State)
      → datalog_index.get (cleared t a l s) a ≡ default_index
  unfolding cleared
  index-cleared_self a l s = index-cleared a a l _ ∙ laws.index_map.get-remove_self _ _

  pub index-cleared_ne :
      (a b : AccountId) (l : List ℕ) (s : State)
      → a ≢ b
      → datalog_index.get (cleared t a l s) b ≡ datalog_index.get s b
  unfolding cleared
  index-cleared_ne a b l s ne =
      index-cleared a b l _
      ∙ laws.index_map.get-remove_ne _ _ _ ne
      ∙ laws.old_index.get-remove _ _ _

  pub log-cleared_self : (a : AccountId) (l : List ℕ) (s : State) → log t (cleared t a l s) a ≡ []
  unfolding log
  log-cleared_self a l s =
      rw index-cleared_self
        (ap (map (λ i. datalog_item.get (cleared t a l s) (a, i))) (slots-default window_size))

  pub log-cleared_ne :
      (a b : AccountId) (l : List ℕ) (s : State) → a ≢ b → log t (cleared t a l s) b ≡ log t s b
  unfolding log cleared
  log-cleared_ne a b l s ne =
      ap₂ map
        (fun_ext λ i.
          item-cleared_ne a b l _ i ne
          ∙ laws.index_item.get-remove _ _ _
          ∙ laws.old_item.get-remove _ _ _)
        (ap (λ idx. slots idx window_size) (index-cleared_ne a b l s ne))

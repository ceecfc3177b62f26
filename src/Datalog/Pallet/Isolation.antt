-- ===== src/Datalog/Pallet/Isolation.antt =====
-- The log of one account of pallets/datalog/src/lib.rs among the calls of others.
use mathlib.Core.Logic.{ite, if_pos, if_neg}
use ipci_blockchain.Prelude.{
  ℕ, ◌-◌, ◌≤◌, ◌≡◌, ◌≢◌, refl, sym, ap, ◌∙◌, some, List, [], ◌∷◌, foldl, keep_last,
}
use ipci_blockchain.Datalog.RingBuffer.{default_index}
use ipci_blockchain.Datalog.Pallet.{
  Trait, RingBufferItem, Event, new_record, erased, record_sent, data_of,
}
use ipci_blockchain.Datalog.Pallet.Laws.{IsTrait}
use ipci_blockchain.Datalog.Pallet.Faithful.{apply_event, history}
use ipci_blockchain.Datalog.Pallet.History.{Reach, data_of-eq-history}

-- the account of an event
abbrev pub account_of :
    {AccountId Moment Record : Type 0} → Event AccountId Moment Record → AccountId
account_of (new_record a m r) = a
account_of (erased a) = a
account_of (record_sent a) = a

module _ {AccountId Moment Record : Type 0} (account_discrete : Discrete AccountId) where
  -- the events of one account, in their order
  abbrev pub own_events :
      AccountId → List (Event AccountId Moment Record) → List (Event AccountId Moment Record)
  own_events a [] = []
  own_events a (e ∷ es) =
      ite (account_discrete (account_of e) a) (e ∷ own_events a es) (own_events a es)

  apply_event-other :
      (a : AccountId) (items : List (RingBufferItem Moment Record))
      (e : Event AccountId Moment Record)
      → account_of e ≢ a
      → apply_event account_discrete a items e ≡ items
  apply_event-other a items (new_record b m r) ne = if_neg (account_discrete b a) ne _ _
  apply_event-other a items (erased b) ne = if_neg (account_discrete b a) ne _ _
  apply_event-other a items (record_sent b) ne = refl

  foldl-own_events :
      (a : AccountId) (es : List (Event AccountId Moment Record))
      (items : List (RingBufferItem Moment Record))
      → foldl (apply_event account_discrete a) items (own_events a es)
        ≡ foldl (apply_event account_discrete a) items es
  foldl-own_events a [] items = refl
  foldl-own_events a (e ∷ es) items = elim (account_discrete (account_of e) a) [
    | yes p ↦
        rw (if_pos (account_discrete (account_of e) a) p (e ∷ own_events a es) (own_events a es))
          (foldl-own_events a es (apply_event account_discrete a items e))
    | no ne ↦
        rw (if_neg (account_discrete (account_of e) a) ne (e ∷ own_events a es) (own_events a es)) (
          foldl-own_events a es items
          ∙ ap (λ i. foldl (apply_event account_discrete a) i es)
              (sym (apply_event-other a items e ne)))
  ]

module _ {State Origin AccountId Moment Record : Type 0}
    (t : Trait State Origin AccountId Moment Record) (laws : IsTrait t) where
  open t use {window_size, datalog_index}

  data_of-own_events :
      (fuel : ℕ) (s₀ : State) {s : State} {es : List (Event AccountId Moment Record)}
      (a : AccountId)
      → window_size ≤ fuel
      → ((b : AccountId) → datalog_index.get s₀ b ≡ default_index)
      → Reach t fuel s₀ s es
      → data_of t fuel a s
        ≡ some (
            keep_last
              (window_size - 1)
              (history laws.account_discrete a (own_events laws.account_discrete a es)))
  data_of-own_events fuel s₀ {s} {es} a enough fresh reach =
      data_of-eq-history t laws fuel s₀ a enough fresh reach
      ∙ ap (λ items. some (keep_last (window_size - 1) items))
          (sym (foldl-own_events laws.account_discrete a es []))

  -- On two chains, each reached from a genesis with an empty index, on which the same events of an
  -- account were deposited in the same order, the query `data` of the account returns the same,
  -- whatever calls other accounts made, and however these were interleaved.
  pub data_of_isolated :
      (fuel : ℕ) (s₀ s₀' : State) {s s' : State} {es es' : List (Event AccountId Moment Record)}
      (a : AccountId)
      → window_size ≤ fuel
      → ((b : AccountId) → datalog_index.get s₀ b ≡ default_index)
      → ((b : AccountId) → datalog_index.get s₀' b ≡ default_index)
      → Reach t fuel s₀ s es
      → Reach t fuel s₀' s' es'
      → own_events laws.account_discrete a es ≡ own_events laws.account_discrete a es'
      → data_of t fuel a s ≡ data_of t fuel a s'
  data_of_isolated fuel s₀ s₀' a enough fresh fresh' reach reach' same =
      data_of-own_events fuel s₀ a enough fresh reach
      ∙ ap (λ es. some (keep_last (window_size - 1) (history laws.account_discrete a es))) same
      ∙ sym (data_of-own_events fuel s₀' a enough fresh' reach')

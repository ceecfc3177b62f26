-- ===== src/Datalog/Pallet/Faithful.antt =====
-- The storage of pallets/datalog/src/lib.rs for an account against its history, the records that its
-- events show, through the calls `record` and `erase`.
use mathlib.Core.Logic.{ite, if_pos, if_neg}
use mathlib.Core.List.{foldl-append, append-nil}
use ipci_blockchain.Prelude.{
  ℕ, ◌-◌, ◌≡◌, sym, ap, ◌∙◌, List, [], ◌∷◌, ◌++◌, foldl, keep_last, keep_last-append, keep_last-nil,
  refl, ◌≢◌,
}
use ipci_blockchain.Datalog.RingBuffer.Bounds.{IsValid}
use ipci_blockchain.Datalog.RingBuffer.Window.{slots}
use ipci_blockchain.Datalog.Pallet.{
  Trait, Result, RingBufferItem, Event, new_record, erased, record_sent, Call,
}
use ipci_blockchain.Datalog.Pallet.Laws.{IsTrait}
use ipci_blockchain.Datalog.Pallet.Outcome.{recorded, cleared, new_item, log}
use ipci_blockchain.Datalog.Pallet.Valid.{by_account, recorded-valid, cleared-valid}
use ipci_blockchain.Datalog.Pallet.Effect.{Effect, too_big, unsigned, records, erases}
use ipci_blockchain.Datalog.Pallet.Recorded.{log-recorded_self, log-recorded_ne}
use ipci_blockchain.Datalog.Pallet.Cleared.{log-cleared_self, log-cleared_ne}

module _ {AccountId Moment Record : Type 0} (account_discrete : Discrete AccountId) where
  -- what one event says about the log of `account`
  abbrev pub apply_event :
      AccountId
      → List (RingBufferItem Moment Record)
      → Event AccountId Moment Record
      → List (RingBufferItem Moment Record)
  apply_event account items (new_record a m r) =
      ite (account_discrete a account) (items ++ record { 0 = m; 1 = r } ∷ []) items
  apply_event account items (erased a) = ite (account_discrete a account) [] items
  apply_event account items (record_sent a) = items

  -- the records that `account` has sent since it last erased its log
  abbrev pub history :
      AccountId → List (Event AccountId Moment Record) → List (RingBufferItem Moment Record)
  history account es = foldl (apply_event account) [] es

module _ {State Origin AccountId Moment Record : Type 0}
    (t : Trait State Origin AccountId Moment Record) (laws : IsTrait t) where
  open t use {window_size, datalog_index, datalog_item}

  abbrev pub past :
      AccountId → List (Event AccountId Moment Record) → List (RingBufferItem Moment Record)
  past = history laws.account_discrete

  -- the storage of an account says what its events say
  pub record IsFaithful (s : State) (es : List (Event AccountId Moment Record)) : Type 0 where
    pub valid : (a : AccountId) → IsValid (datalog_index.get s a) window_size
    pub kept : (a : AccountId) → log t s a ≡ keep_last (window_size - 1) (past a es)

  past-record_self :
      (a : AccountId) (m : Moment) (r : Record) (es : List (Event AccountId Moment Record))
      → past a (es ++ new_record a m r ∷ []) ≡ past a es ++ record { 0 = m; 1 = r } ∷ []
  past-record_self a m r es =
      foldl-append (apply_event laws.account_discrete a) [] es (new_record a m r ∷ [])
      ∙ if_pos (laws.account_discrete a a) refl _ _

  past-record_ne :
      (a b : AccountId) (m : Moment) (r : Record) (es : List (Event AccountId Moment Record))
      → a ≢ b
      → past b (es ++ new_record a m r ∷ []) ≡ past b es
  past-record_ne a b m r es ne =
      foldl-append (apply_event laws.account_discrete b) [] es (new_record a m r ∷ [])
      ∙ if_neg (laws.account_discrete a b) ne _ _

  past-erased_self :
      (a : AccountId) (es : List (Event AccountId Moment Record))
      → past a (es ++ erased a ∷ []) ≡ []
  past-erased_self a es =
      foldl-append (apply_event laws.account_discrete a) [] es (erased a ∷ [])
      ∙ if_pos (laws.account_discrete a a) refl _ _

  past-erased_ne :
      (a b : AccountId) (es : List (Event AccountId Moment Record))
      → a ≢ b
      → past b (es ++ erased a ∷ []) ≡ past b es
  past-erased_ne a b es ne =
      foldl-append (apply_event laws.account_discrete b) [] es (erased a ∷ [])
      ∙ if_neg (laws.account_discrete a b) ne _ _

  recorded-IsFaithful :
      (a : AccountId) (rec : Record) (s : State) (es : List (Event AccountId Moment Record))
      → IsFaithful s es
      → IsFaithful (recorded t a rec s) (es ++ new_record a (t.now s) rec ∷ [])
  recorded-IsFaithful a rec s es f = record {
    valid = recorded-valid t laws a rec s f.valid;
    kept = λ b.
        by_account laws.account_discrete
          (λ b.
            log t (recorded t a rec s) b
            ≡ keep_last (window_size - 1) (past b (es ++ new_record a (t.now s) rec ∷ [])))
          a b
          (log-recorded_self t laws a rec s (f.valid a)
            ∙ ap (λ l. keep_last (window_size - 1) (l ++ new_item t rec s ∷ [])) (f.kept a)
            ∙ keep_last-append (window_size - 1) (past a es) (new_item t rec s ∷ [])
            ∙ ap (keep_last (window_size - 1)) (sym (past-record_self a (t.now s) rec es)))
          (λ ne.
            log-recorded_ne t laws a b rec s ne
            ∙ f.kept b
            ∙ ap (keep_last (window_size - 1)) (sym (past-record_ne a b (t.now s) rec es ne)));
  }

  cleared-IsFaithful :
      (a : AccountId) (l : List ℕ) (s : State) (es : List (Event AccountId Moment Record))
      → IsFaithful s es
      → IsFaithful (cleared t a l s) (es ++ erased a ∷ [])
  cleared-IsFaithful a l s es f = record {
    valid = cleared-valid t laws a l s f.valid;
    kept = λ b.
        by_account laws.account_discrete
          (λ b.
            log t (cleared t a l s) b ≡ keep_last (window_size - 1) (past b (es ++ erased a ∷ [])))
          a b
          (log-cleared_self t laws a l s
            ∙ sym (
                ap (keep_last (window_size - 1)) (past-erased_self a es)
                ∙ keep_last-nil (window_size - 1)))
          (λ ne.
            log-cleared_ne t laws a b l s ne
            ∙ f.kept b
            ∙ ap (keep_last (window_size - 1)) (sym (past-erased_ne a b es ne)));
  }

  pub Effect-IsFaithful :
      (origin : Origin) (c : Call Record) {s : State} {es : List (Event AccountId Moment Record)}
      {x : Result (Unit {0}) × State × List (Event AccountId Moment Record)}
      → IsFaithful s es
      → Effect t origin c s x
      → IsFaithful x.1 (es ++ x.2)
  Effect-IsFaithful origin c {s} {es} f (too_big rec e b) = rw (append-nil es) f
  Effect-IsFaithful origin c {s} {es} f (unsigned e b) = rw (append-nil es) f
  Effect-IsFaithful origin c {s} {es} f (records a rec e signed small) =
      recorded-IsFaithful a rec s es f
  Effect-IsFaithful origin c {s} {es} f (erases a e signed) =
      cleared-IsFaithful a (slots (datalog_index.get s a) window_size) s es f

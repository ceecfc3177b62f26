-- ===== src/Datalog/Pallet/History.antt =====
-- The query `data` of pallets/datalog/src/lib.rs against the events that the pallet has deposited, over
-- any sequence of calls.
use mathlib.Core.Path.{subst, fun_ext}
use mathlib.Core.Option.{some-injective}
use ipci_blockchain.Prelude.{
  ℕ, ◌-◌, ◌≤◌, ◌≡◌, sym, ap, ap₂, ◌∙◌, some, List, [], ◌∷◌, ◌++◌, map, keep_last, keep_last-nil,
  foldl-snoc,
}
use ipci_blockchain.Datalog.RingBuffer.{default_index}
use ipci_blockchain.Datalog.RingBuffer.Bounds.{IsValid}
use ipci_blockchain.Datalog.RingBuffer.Window.{slots}
use ipci_blockchain.Datalog.RingBuffer.Contents.{slots-default}
use ipci_blockchain.Datalog.RingBuffer.Slots.{fold_iter-slots}
use ipci_blockchain.Datalog.Pallet.{Trait, Result, Event, Call, dispatch, data_of}
use ipci_blockchain.Datalog.Pallet.Laws.{IsTrait}
use ipci_blockchain.Datalog.Pallet.Outcome.{log}
use ipci_blockchain.Datalog.Pallet.Effect.{dispatch-Effect}
use ipci_blockchain.Datalog.Pallet.Valid.{default-IsValid}
use ipci_blockchain.Datalog.Pallet.Faithful.{history, IsFaithful, Effect-IsFaithful}

module _ {State Origin AccountId Moment Record : Type 0}
    (t : Trait State Origin AccountId Moment Record) (fuel : ℕ) where
  open t use {window_size, datalog_index, datalog_item}

  -- The chain from the state `s₀` on: calls of the pallet, with the events that they deposit, and all
  -- else that happens, which leaves the storage of the pallet alone.
  pub data Reach (s₀ : State) : State → List (Event AccountId Moment Record) → Type 0 where
    start : Reach s₀ s₀ []
    call :
        {s s' : State} {es es' : List (Event AccountId Moment Record)} (origin : Origin)
        (c : Call Record) (r : Result (Unit {0}))
        → Reach s₀ s es
        → dispatch t fuel origin c s ≡ some (r, s', es')
        → Reach s₀ s' (es ++ es')
    other :
        {s s' : State} {es : List (Event AccountId Moment Record)}
        → Reach s₀ s es
        → ((a : AccountId) → datalog_index.get s' a ≡ datalog_index.get s a)
        → ((a : AccountId) (i : ℕ) → datalog_item.get s' (a, i) ≡ datalog_item.get s (a, i))
        → Reach s₀ s' es

module _ {State Origin AccountId Moment Record : Type 0}
    (t : Trait State Origin AccountId Moment Record) (laws : IsTrait t) where
  open t use {window_size, datalog_index, datalog_item}

  -- Whatever calls were made, and whatever else happened, the storage says what the events say.
  pub Reach-IsFaithful :
      (fuel : ℕ) (s₀ : State) {s : State} {es : List (Event AccountId Moment Record)}
      → window_size ≤ fuel
      → ((a : AccountId) → datalog_index.get s₀ a ≡ default_index)
      → Reach t fuel s₀ s es
      → IsFaithful t laws s es
  unfolding log
  Reach-IsFaithful fuel s₀ enough fresh start = record {
    valid = λ a. rw (fresh a) (default-IsValid t laws);
    kept = λ a.
        ap (λ idx. map (λ i. datalog_item.get s₀ (a, i)) (slots idx window_size)) (fresh a)
        ∙ ap (map (λ i. datalog_item.get s₀ (a, i))) (slots-default window_size)
        ∙ sym (keep_last-nil (window_size - 1));
  }
  Reach-IsFaithful fuel s₀ enough fresh (call {s} {s'} {es} {es'} origin c r reach e) =
      let f = Reach-IsFaithful fuel s₀ enough fresh reach in
      let (x, returns, effect) = dispatch-Effect t laws fuel origin c s enough f.valid in
      subst (λ y. IsFaithful t laws y.1 (es ++ y.2)) (some-injective _ _ (sym returns ∙ e))
        (Effect-IsFaithful t laws origin c f effect)
  Reach-IsFaithful fuel s₀ enough fresh (other {s} {s'} {es} reach same_index same_item) =
      let f = Reach-IsFaithful fuel s₀ enough fresh reach in
      record {
        valid = λ a. rw (same_index a) (f.valid a);
        kept = λ a.
            ap₂ map (fun_ext (same_item a)) (ap (λ idx. slots idx window_size) (same_index a))
            ∙ f.kept a;
      }

  pub data_of-eq-log :
      (fuel : ℕ) (a : AccountId) (s : State)
      → window_size ≤ fuel
      → IsValid (datalog_index.get s a) window_size
      → data_of t fuel a s ≡ some (log t s a)
  unfolding data_of log
  data_of-eq-log fuel a s enough v =
      fold_iter-slots fuel (λ items i. items ++ datalog_item.get s (a, i) ∷ []) [] v enough
      ∙ ap some (
          foldl-snoc (λ i. datalog_item.get s (a, i)) []
            (slots (datalog_index.get s a) window_size))

  -- From a genesis with an empty index, after any calls of the pallet, accepted or refused, and with
  -- anything else happening in between that leaves its storage alone, the query `data` of an account
  -- returns, and gives the last `window_size - 1` records that the account has sent since it last
  -- erased its log, the oldest first, each with the time at which it was sent. Both are read off the
  -- events that the pallet has deposited.
  pub data_of-eq-history :
      (fuel : ℕ) (s₀ : State) {s : State} {es : List (Event AccountId Moment Record)}
      (a : AccountId)
      → window_size ≤ fuel
      → ((b : AccountId) → datalog_index.get s₀ b ≡ default_index)
      → Reach t fuel s₀ s es
      → data_of t fuel a s ≡ some (keep_last (window_size - 1) (history laws.account_discrete a es))
  data_of-eq-history fuel s₀ {s} a enough fresh reach =
      let f = Reach-IsFaithful fuel s₀ enough fresh reach in
      data_of-eq-log fuel a s enough (f.valid a) ∙ ap some (f.kept a)

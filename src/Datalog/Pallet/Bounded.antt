-- ===== src/Datalog/Pallet/Bounded.antt =====
-- How many items of an account the storage of pallets/datalog/src/lib.rs holds, over any sequence of
-- calls.
use mathlib.Core.Option.{some-injective}
use native.Mathlib.Decide.{ℕ_discrete}
use ipci_blockchain.Prelude.{ℕ, ◌≤◌, ◌≡◌, ◌≢◌, ◌⊎◌, inl, inr, sym, ap, ◌∙◌, subst, List}
use ipci_blockchain.Datalog.RingBuffer.{default_index}
use ipci_blockchain.Datalog.RingBuffer.Bounds.{IsValid}
use ipci_blockchain.Datalog.RingBuffer.Window.{slots}
use ipci_blockchain.Datalog.RingBuffer.Contents.{AllSlots}
use ipci_blockchain.Datalog.RingBuffer.Unused.{slots-IsUnused}
use ipci_blockchain.Datalog.Pallet.{Trait, Result, Event, Call, default_item}
use ipci_blockchain.Datalog.Pallet.Laws.{IsTrait}
use ipci_blockchain.Datalog.Pallet.Outcome.{recorded, cleared}
use ipci_blockchain.Datalog.Pallet.Recorded.{index-recorded_ne, item-recorded_ne}
use ipci_blockchain.Datalog.Pallet.Cleared.{index-cleared_ne, item-cleared_ne}
use ipci_blockchain.Datalog.Pallet.Effect.{
  Effect, too_big, unsigned, records, erases, dispatch-Effect,
}
use ipci_blockchain.Datalog.Pallet.History.{Reach, start, call, other, Reach-IsFaithful}
use ipci_blockchain.Datalog.Pallet.Leftover.{
  OneLeftover, Same, Same-OneLeftover, recorded-OneLeftover, cleared-OneLeftover,
}

module _ {State Origin AccountId Moment Record : Type 0}
    (t : Trait State Origin AccountId Moment Record) (laws : IsTrait t) where
  open t use {window_size, datalog_index, datalog_item}

  -- a call of one account leaves another alone
  recorded-Same :
      (a b : AccountId) (rec : Record) (s : State) → a ≢ b → Same t laws s (recorded t a rec s) b
  recorded-Same a b rec s ne = (
    index-recorded_ne t laws a b rec s ne,
    λ i. item-recorded_ne t laws a b i rec s (λ e. ne (ap (λ p. p.0) e)),
  )

  cleared-Same :
      (a b : AccountId) (l : List ℕ) (s : State) → a ≢ b → Same t laws s (cleared t a l s) b
  unfolding cleared
  cleared-Same a b l s ne = (
    index-cleared_ne t laws a b l s ne,
    λ i.
        item-cleared_ne t laws a b l _ i ne
        ∙ laws.index_item.get-remove _ _ _
        ∙ laws.old_item.get-remove _ _ _,
  )

  Effect-OneLeftover :
      (origin : Origin) (c : Call Record) (b : AccountId) {s : State}
      {x : Result (Unit {0}) × State × List (Event AccountId Moment Record)}
      → IsValid (datalog_index.get s b) window_size
      → OneLeftover t laws s b
      → Effect t origin c s x
      → OneLeftover t laws x.1 b
  Effect-OneLeftover origin c b v o (too_big rec e big) = o
  Effect-OneLeftover origin c b v o (unsigned e bad) = o
  Effect-OneLeftover origin c b {s} v o (records a rec e signed small) =
      elim (laws.account_discrete a b) [
        | yes p ↦ subst (OneLeftover t laws (recorded t a rec s)) p (
            recorded-OneLeftover t laws a rec s
              (subst (λ a'. IsValid (datalog_index.get s a') window_size) (sym p) v)
              (subst (OneLeftover t laws s) (sym p) o))
        | no ne ↦ Same-OneLeftover t laws s (recorded t a rec s) b (recorded-Same a b rec s ne) o
      ]
  Effect-OneLeftover origin c b {s} v o (erases a e signed) = elim (laws.account_discrete a b) [
    | yes p ↦
        subst (OneLeftover t laws (cleared t a (slots (datalog_index.get s a) window_size) s)) p (
          cleared-OneLeftover t laws a s
            (subst (λ a'. IsValid (datalog_index.get s a') window_size) (sym p) v)
            (subst (OneLeftover t laws s) (sym p) o))
    | no ne ↦ Same-OneLeftover t laws s _ b (cleared-Same a b _ s ne) o
  ]

  Reach-OneLeftover :
      (fuel : ℕ) (s₀ : State) (a : AccountId) {s : State}
      {es : List (Event AccountId Moment Record)}
      → window_size ≤ fuel
      → ((b : AccountId) → datalog_index.get s₀ b ≡ default_index)
      → ((i : ℕ) → datalog_item.get s₀ (a, i) ≡ default_item t)
      → Reach t fuel s₀ s es
      → OneLeftover t laws s a
  Reach-OneLeftover fuel s₀ a enough fresh empty start = record {
    slot = 0;
    slot_in = laws.window_pos;
    elsewhere = λ i ne unused. empty i;
  }
  Reach-OneLeftover fuel s₀ a enough fresh empty (call {s} {s'} {es} {es'} origin c r reach e) =
      let f = Reach-IsFaithful t laws fuel s₀ enough fresh reach in
      let (x, returns, effect) = dispatch-Effect t laws fuel origin c s enough f.valid in
      subst (λ y. OneLeftover t laws y.1 a) (some-injective _ _ (sym returns ∙ e))
        (Effect-OneLeftover origin c a (f.valid a)
          (Reach-OneLeftover fuel s₀ a enough fresh empty reach) effect)
  Reach-OneLeftover fuel s₀ a enough fresh empty (other {s} {s'} {es} reach same_index same_item) =
      Same-OneLeftover t laws s s' a (same_index a, same_item a)
        (Reach-OneLeftover fuel s₀ a enough fresh empty reach)

  -- From a genesis with an empty index and no items of an account, after any calls of the pallet, and
  -- with anything else happening in between that leaves its storage alone, of two slots of the account
  -- that are not in use one is empty: storage holds at most one item beside the log.
  pub one_leftover :
      (fuel : ℕ) (s₀ : State) {s : State} {es : List (Event AccountId Moment Record)}
      (a : AccountId) (i j : ℕ)
      → window_size ≤ fuel
      → ((b : AccountId) → datalog_index.get s₀ b ≡ default_index)
      → ((k : ℕ) → datalog_item.get s₀ (a, k) ≡ default_item t)
      → Reach t fuel s₀ s es
      → i ≢ j
      → AllSlots (λ k. k ≢ i) (slots (datalog_index.get s a) window_size)
      → AllSlots (λ k. k ≢ j) (slots (datalog_index.get s a) window_size)
      → (datalog_item.get s (a, i) ≡ default_item t) ⊎ (datalog_item.get s (a, j) ≡ default_item t)
  one_leftover fuel s₀ {s} a i j enough fresh empty reach ne free_i free_j =
      let v = (Reach-IsFaithful t laws fuel s₀ enough fresh reach).valid a in
      let o = Reach-OneLeftover fuel s₀ a enough fresh empty reach in
      elim (ℕ_discrete i o.slot) [
        | yes e ↦ inr (o.elsewhere j (λ e'. ne (e ∙ sym e')) (slots-IsUnused j v free_j))
        | no off ↦ inl (o.elsewhere i off (slots-IsUnused i v free_i))
      ]

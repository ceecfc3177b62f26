-- ===== src/Datalog/Pallet/Authentic.antt =====
-- Where the records come from that pallets/datalog/src/lib.rs returns for an account.
use mathlib.Core.Option.{some-injective}
use mathlib.Core.Logic.{if_pos, if_neg}
use ipci_blockchain.Prelude.{
  ℕ, zero, suc, ◌-◌, ◌≤◌, ◌≡◌, ◌⊎◌, inl, inr, refl, sym, ◌∙◌, subst, some, List, [], ◌∷◌, ◌++◌,
  foldl, drop, length, keep_last, length-keep_last, arith,
}
use ipci_blockchain.Datalog.RingBuffer.{default_index}
use ipci_blockchain.Datalog.Pallet.{
  Trait, Result, ok, RingBufferItem, Event, new_record, erased, record_sent, Call, record_call,
  data_of,
}
use ipci_blockchain.Datalog.Pallet.Laws.{IsTrait}
use ipci_blockchain.Datalog.Pallet.Effect.{
  Effect, too_big, unsigned, records, erases, dispatch-Effect,
}
use ipci_blockchain.Datalog.Pallet.Faithful.{apply_event, history}
use ipci_blockchain.Datalog.Pallet.History.{
  Reach, start, call, other, Reach-IsFaithful, data_of-eq-history,
}

abbrev pub Each {ℓ κ} : {A : Type ℓ} → (A → Type κ) → List A → Type κ
Each P [] = Unit
Each P (x ∷ xs) = P x × Each P xs

Each-append {ℓ κ} :
    {A : Type ℓ} (P : A → Type κ) (xs ys : List A) → Each P xs → Each P ys → Each P (xs ++ ys)
Each-append P [] ys hx hy = hy
Each-append P (x ∷ xs) ys hx hy = (hx.0, Each-append P xs ys hx.1 hy)

Each-drop {ℓ κ} :
    {A : Type ℓ} (P : A → Type κ) (n : ℕ) (xs : List A) → Each P xs → Each P (drop n xs)
Each-drop P zero xs h = h
Each-drop P (suc n) [] h = h
Each-drop P (suc n) (x ∷ xs) h = Each-drop P n xs h.1

Each-map {ℓ κ μ} :
    {A : Type ℓ} {P : A → Type κ} {Q : A → Type μ} (f : (x : A) → P x → Q x) (xs : List A)
    → Each P xs
    → Each Q xs
Each-map f [] h = tt
Each-map f (x ∷ xs) h = (f x h.0, Each-map f xs h.1)

module _ {State Origin AccountId Moment Record : Type 0}
    (t : Trait State Origin AccountId Moment Record) where
  open t use {ensure_signed, now, size_hint, maximum_message_size}

  -- The call `c` from `origin` in the state `s` sends the record for the account, at this time.
  abbrev pub Sends : Origin → Call Record → State → AccountId → Moment → Record → Type 0
  Sends origin c s a m rec = (ensure_signed origin ≡ ok a) × (c ≡ record_call rec) × (now s ≡ m)

  -- One of the calls on the way to a state did.
  unfoldable pub WasSent :
      {fuel : ℕ} {s₀ s : State} {es : List (Event AccountId Moment Record)}
      → Reach t fuel s₀ s es
      → AccountId
      → Moment
      → Record
      → Type 0
  WasSent start a m rec = ⊥
  WasSent (call {s} origin c r reach e) a m rec = Sends origin c s a m rec ⊎ WasSent reach a m rec
  WasSent (other reach same_index same_item) a m rec = WasSent reach a m rec

  abbrev IsSmall : Record → Type 0
  IsSmall rec = size_hint rec ≤ maximum_message_size

  -- an event tells of a record that `Source` knows and that is not too big, or of none
  abbrev Justified : (AccountId → Moment → Record → Type 0) → Event AccountId Moment Record → Type 0
  Justified Source (new_record a m rec) = Source a m rec × IsSmall rec
  Justified Source (erased a) = Unit
  Justified Source (record_sent a) = Unit

  Justified-map :
      {P Q : AccountId → Moment → Record → Type 0}
      → ((a : AccountId) (m : Moment) (rec : Record) → P a m rec → Q a m rec)
      → (e : Event AccountId Moment Record) → Justified P e
      → Justified Q e
  Justified-map f (new_record a m rec) h = (f a m rec h.0, h.1)
  Justified-map f (erased a) h = tt
  Justified-map f (record_sent a) h = tt

  Effect-Justified :
      (origin : Origin) (c : Call Record) {s : State}
      {x : Result (Unit {0}) × State × List (Event AccountId Moment Record)}
      → Effect t origin c s x
      → Each (Justified (Sends origin c s)) (x.2)
  Effect-Justified origin c (too_big rec e big) = tt
  Effect-Justified origin c (unsigned e bad) = tt
  Effect-Justified origin c (records a rec e signed small) = (((signed, e, refl), ground arith), tt)
  Effect-Justified origin c (erases a e signed) = (tt, tt)

  -- the item was sent for the account by one of the calls, at its time, and is not too big
  abbrev pub SentItem :
      {fuel : ℕ} {s₀ s : State} {es : List (Event AccountId Moment Record)}
      → Reach t fuel s₀ s es
      → AccountId
      → RingBufferItem Moment Record
      → Type 0
  SentItem reach a item =
      WasSent reach a (item.«0») (item.«1») × (size_hint (item.«1») ≤ maximum_message_size)

  module _ (account_discrete : Discrete AccountId) (a : AccountId)
      (Source : AccountId → Moment → Record → Type 0) where
    abbrev FromSource : RingBufferItem Moment Record → Type 0
    FromSource item = Source a (item.«0») (item.«1») × IsSmall (item.«1»)

    apply_event-Each :
        (items : List (RingBufferItem Moment Record)) (e : Event AccountId Moment Record)
        → Justified Source e
        → Each FromSource items
        → Each FromSource (apply_event account_discrete a items e)
    apply_event-Each items (new_record b m rec) sent h = elim (account_discrete b a) [
      | yes p ↦
          rw (if_pos (account_discrete b a) p (items ++ record { 0 = m; 1 = rec } ∷ []) items)
            (Each-append FromSource items _ h ((subst (λ c. Source c m rec) p sent.0, sent.1), tt))
      | no ne ↦
          rw (if_neg (account_discrete b a) ne (items ++ record { 0 = m; 1 = rec } ∷ []) items) h
    ]
    apply_event-Each items (erased b) just h = elim (account_discrete b a) [
      | yes p ↦ rw (if_pos (account_discrete b a) p [] items) tt
      | no ne ↦ rw (if_neg (account_discrete b a) ne [] items) h
    ]
    apply_event-Each items (record_sent b) just h = h

    foldl-Each :
        (es : List (Event AccountId Moment Record)) (items : List (RingBufferItem Moment Record))
        → Each (Justified Source) es
        → Each FromSource items
        → Each FromSource (foldl (apply_event account_discrete a) items es)
    foldl-Each [] items just h = h
    foldl-Each (e ∷ es) items just h =
        foldl-Each es (apply_event account_discrete a items e) just.1
          (apply_event-Each items e just.0 h)

module _ {State Origin AccountId Moment Record : Type 0}
    (t : Trait State Origin AccountId Moment Record) (laws : IsTrait t) where
  open t use {window_size, datalog_index}

  Reach-Justified :
      (fuel : ℕ) (s₀ : State) {s : State} {es : List (Event AccountId Moment Record)}
      → window_size ≤ fuel
      → ((a : AccountId) → datalog_index.get s₀ a ≡ default_index)
      → (reach : Reach t fuel s₀ s es) → Each (Justified t (WasSent t reach)) es
  unfolding WasSent
  Reach-Justified fuel s₀ enough fresh start = tt
  Reach-Justified fuel s₀ enough fresh (call {s} {s'} {es} {es'} origin c r reach e) =
      let f = Reach-IsFaithful t laws fuel s₀ enough fresh reach in
      let (x, returns, effect) = dispatch-Effect t laws fuel origin c s enough f.valid in
      let mine =
        subst (λ y. Each (Justified t (Sends t origin c s)) (y.2))
          (some-injective _ _ (sym returns ∙ e)) (Effect-Justified t origin c effect) in
      Each-append _ es es'
        (Each-map (Justified-map t (λ a m rec h. inr h)) es
          (Reach-Justified fuel s₀ enough fresh reach))
        (Each-map (Justified-map t (λ a m rec h. inl h)) es' mine)
  Reach-Justified fuel s₀ enough fresh (other reach same_index same_item) =
      Reach-Justified fuel s₀ enough fresh reach

  -- From a genesis with an empty index, after any calls of the pallet and anything else that leaves its
  -- storage alone, the query `data` of an account returns, and gives at most `window_size - 1` items.
  -- Each was sent by one of these calls: its origin was signed by this account, it was `record` of this
  -- very record, and the clock showed the time of the item. And none is larger than
  -- `maximum_message_size`.
  pub data_of_authentic :
      (fuel : ℕ) (s₀ : State) {s : State} {es : List (Event AccountId Moment Record)}
      (a : AccountId)
      → window_size ≤ fuel
      → ((b : AccountId) → datalog_index.get s₀ b ≡ default_index)
      → (reach : Reach t fuel s₀ s es)
      → (items : List (RingBufferItem Moment Record)) × (data_of t fuel a s ≡ some items)
        × (length items ≤ window_size - 1)
        × Each (SentItem t reach a) items
  data_of_authentic fuel s₀ {s} {es} a enough fresh reach =
      let past = history laws.account_discrete a es in
      (
        keep_last (window_size - 1) past,
        data_of-eq-history t laws fuel s₀ a enough fresh reach,
        omega (arith, length-keep_last (window_size - 1) past),
        Each-drop (SentItem t reach a) (length past - (window_size - 1)) past (
            foldl-Each t laws.account_discrete a (WasSent t reach) es []
              (Reach-Justified fuel s₀ enough fresh reach) tt),
      )

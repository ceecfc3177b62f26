-- ===== src/Datalog/Pallet/Effect.antt =====
-- The outcomes of a call of pallets/datalog/src/lib.rs, on every branch.
use ipci_blockchain.Prelude.{
  ℕ, ◌≤◌, ◌≡◌, ◌⊎◌, refl, true, false, some, List, [], ◌∷◌, leb, Bool-cases, inl, inr,
}
use ipci_blockchain.Datalog.RingBuffer.Bounds.{IsValid}
use ipci_blockchain.Datalog.RingBuffer.Window.{slots}
use ipci_blockchain.Datalog.Pallet.{
  Trait, Result, ok, err, DispatchError, in_module, record_too_big, Event, new_record, erased, Call,
  record_call, erase_call, record_data, erase, dispatch,
}
use ipci_blockchain.Datalog.Pallet.Laws.{IsTrait}
use ipci_blockchain.Datalog.Pallet.Outcome.{recorded, cleared, record_data-ok, erase-ok}

Result-cases :
    {A : Type 0} (r : Result A) → ((a : A) × (r ≡ ok a)) ⊎ ((e : DispatchError) × (r ≡ err e))
Result-cases (ok a) = inl (a, refl)
Result-cases (err e) = inr (e, refl)

module _ {State Origin AccountId Moment Record : Type 0}
    (t : Trait State Origin AccountId Moment Record) where
  open t use {ensure_signed, now, size_hint, window_size, maximum_message_size, datalog_index}

  -- what a call from `origin` returns and leaves
  pub data Effect (origin : Origin) (c : Call Record) (s : State)
      : Result (Unit {0}) × State × List (Event AccountId Moment Record) → Type 0 where
    too_big :
        (rec : Record)
        → c ≡ record_call rec
        → leb (size_hint rec) maximum_message_size ≡ false
        → Effect origin c s (err (in_module record_too_big), s, [])
    unsigned : (e : DispatchError) → ensure_signed origin ≡ err e → Effect origin c s (err e, s, [])
    records :
        (a : AccountId) (rec : Record)
        → c ≡ record_call rec
        → ensure_signed origin ≡ ok a
        → leb (size_hint rec) maximum_message_size ≡ true
        → Effect origin c s (ok tt, recorded t a rec s, new_record a (now s) rec ∷ [])
    erases :
        (a : AccountId)
        → c ≡ erase_call
        → ensure_signed origin ≡ ok a
        → Effect origin c s
            (ok tt, cleared t a (slots (datalog_index.get s a) window_size) s, erased a ∷ [])

module _ {State Origin AccountId Moment Record : Type 0}
    (t : Trait State Origin AccountId Moment Record) (laws : IsTrait t) where
  open t use {ensure_signed, now, size_hint, window_size, maximum_message_size, datalog_index}

  -- A record above the size limit is refused, whatever its origin, and nothing is written.
  pub record_data-too_big :
      (origin : Origin) (rec : Record) (s : State)
      → leb (size_hint rec) maximum_message_size ≡ false
      → record_data t origin rec s ≡ some (err (in_module record_too_big), s, [])
  unfolding record_data
  record_data-too_big origin rec s big = rw big

  pub record_data-bad_origin :
      (origin : Origin) (rec : Record) (s : State) (e : DispatchError)
      → leb (size_hint rec) maximum_message_size ≡ true
      → ensure_signed origin ≡ err e
      → record_data t origin rec s ≡ some (err e, s, [])
  unfolding record_data
  record_data-bad_origin origin rec s e small bad = rw (small, bad)

  pub erase-bad_origin :
      (fuel : ℕ) (origin : Origin) (s : State) (e : DispatchError)
      → ensure_signed origin ≡ err e
      → erase t fuel origin s ≡ some (err e, s, [])
  unfolding erase
  erase-bad_origin fuel origin s e bad = rw bad

  -- Where every index is valid, a call returns within `window_size` rounds, and its result, the state
  -- it leaves and its events are one of the three effects.
  pub dispatch-Effect :
      (fuel : ℕ) (origin : Origin) (c : Call Record) (s : State)
      → window_size ≤ fuel
      → ((a : AccountId) → IsValid (datalog_index.get s a) window_size)
      → (x : Result (Unit {0}) × State × List (Event AccountId Moment Record)) × (dispatch t fuel
            origin c s
          ≡ some x)
        × Effect t origin c s x
  unfolding dispatch
  dispatch-Effect fuel origin (record_call rec) s enough v =
      elim (Bool-cases (leb (size_hint rec) maximum_message_size)) [
        | inr big ↦ (_, record_data-too_big origin rec s big, too_big rec refl big)
        | inl small ↦ elim (Result-cases (ensure_signed origin)) [
          | inl (a, signed) ↦ (
            _,
            record_data-ok t laws origin a rec s small signed,
            records a rec refl signed small,
          )
          | inr (e, bad) ↦ (_, record_data-bad_origin origin rec s e small bad, unsigned e bad)
        ]
      ]
  dispatch-Effect fuel origin erase_call s enough v = elim (Result-cases (ensure_signed origin)) [
    | inl (a, signed) ↦
        (_, erase-ok t laws fuel origin a s enough (v a) signed, erases a refl signed)
    | inr (e, bad) ↦ (_, erase-bad_origin fuel origin s e bad, unsigned e bad)
  ]

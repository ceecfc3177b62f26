-- ===== src/Datalog/Pallet/Refines.antt =====
-- What pallets/datalog/src/lib.rs promises: a log for each account, with no slots and no pointers, and
-- that the calls of the pallet do on storage what this says.
use mathlib.Core.Logic.{ite, if_pos, if_neg}
use ipci_blockchain.Prelude.{
  ℕ, ◌-◌, ◌≤◌, ◌≡◌, sym, ◌∙◌, refl, Option, true, some, List, [], ◌∷◌, ◌++◌, if◌then◌else◌, leb,
  keep_last, Bool-cases, inl, inr,
}
use ipci_blockchain.Datalog.RingBuffer.Window.{slots}
use ipci_blockchain.Datalog.Pallet.{
  Trait, Result, ok, err, in_module, record_too_big, RingBufferItem, Event, new_record, erased,
  Call, record_call, erase_call, record_data, erase, dispatch,
}
use ipci_blockchain.Datalog.Pallet.Laws.{IsTrait}
use ipci_blockchain.Datalog.Pallet.Outcome.{recorded, cleared, log, record_data-ok, erase-ok}
use ipci_blockchain.Datalog.Pallet.Recorded.{log-recorded_self, log-recorded_ne}
use ipci_blockchain.Datalog.Pallet.Cleared.{log-cleared_self, log-cleared_ne}
use ipci_blockchain.Datalog.Pallet.Effect.{
  record_data-too_big, record_data-bad_origin, erase-bad_origin,
}
use ipci_blockchain.Datalog.Pallet.Valid.{AllValid, by_account, recorded-valid, cleared-valid}

module _ {State Origin AccountId Moment Record : Type 0}
    (t : Trait State Origin AccountId Moment Record) (same : Discrete AccountId) where
  open t use {ensure_signed, size_hint, window_size, maximum_message_size}

  -- the log of every account
  abbrev pub Logs : Type 0
  Logs = AccountId → List (RingBufferItem Moment Record)

  abbrev pub put : AccountId → List (RingBufferItem Moment Record) → Logs → Logs
  put a items logs b = ite (same a b) items (logs b)

  abbrev pub Answer : Type 0
  Answer = Result (Unit {0}) × Logs × List (Event AccountId Moment Record)

  abbrev pub sends : Result AccountId → Record → Moment → Logs → Answer
  sends (err e) rec m logs = (err e, logs, [])
  sends (ok a) rec m logs = (
    ok tt,
    put a (keep_last (window_size - 1) (logs a ++ record { 0 = m; 1 = rec } ∷ [])) logs,
    new_record a m rec ∷ [],
  )

  abbrev pub wipes : Result AccountId → Logs → Answer
  wipes (err e) logs = (err e, logs, [])
  wipes (ok a) logs = (ok tt, put a [] logs, erased a ∷ [])

  -- What a call does at a moment: its result, the logs behind it, and its events. The size is looked at
  -- before the signature.
  unfoldable pub answer : Origin → Call Record → Moment → Logs → Answer
  answer origin (record_call rec) m logs =
      if leb (size_hint rec) maximum_message_size
      then sends (ensure_signed origin) rec m logs
      else (err (in_module record_too_big), logs, [])
  answer origin erase_call m logs = wipes (ensure_signed origin) logs

module _ {State Origin AccountId Moment Record : Type 0}
    (t : Trait State Origin AccountId Moment Record) (laws : IsTrait t) where
  open t use {ensure_signed, now, size_hint, window_size, maximum_message_size, datalog_index}

  -- The state that the call leaves holds the logs that the answer says, and its result and its events
  -- are those of the answer.
  abbrev pub Does :
      Option (Result (Unit {0}) × State × List (Event AccountId Moment Record))
      → Answer t laws.account_discrete
      → Type 0
  Does done (r, logs, es) =
      (s' : State) × (done ≡ some (r, s', es))
      × AllValid t laws s'
      × ((b : AccountId) → log t s' b ≡ logs b)

  log-recorded :
      (a : AccountId) (rec : Record) (s : State)
      → AllValid t laws s
      → (b : AccountId)
      → log t (recorded t a rec s) b
        ≡ put t laws.account_discrete a
            (keep_last (window_size - 1) (log t s a ++ record { 0 = now s; 1 = rec } ∷ []))
            (log t s)
            b
  log-recorded a rec s v b =
      by_account laws.account_discrete
        (λ b.
          log t (recorded t a rec s) b
          ≡ put t laws.account_discrete a
              (keep_last (window_size - 1) (log t s a ++ record { 0 = now s; 1 = rec } ∷ []))
              (log t s) b)
        a b
        (log-recorded_self t laws a rec s (v a) ∙ sym (if_pos (laws.account_discrete a a) refl _ _))
        (λ ne.
          log-recorded_ne t laws a b rec s ne ∙ sym (if_neg (laws.account_discrete a b) ne _ _))

  log-cleared :
      (a : AccountId) (l : List ℕ) (s : State) (b : AccountId)
      → log t (cleared t a l s) b ≡ put t laws.account_discrete a [] (log t s) b
  log-cleared a l s b =
      by_account laws.account_discrete
        (λ b. log t (cleared t a l s) b ≡ put t laws.account_discrete a [] (log t s) b) a b
        (log-cleared_self t laws a l s ∙ sym (if_pos (laws.account_discrete a a) refl _ _))
        (λ ne. log-cleared_ne t laws a b l s ne ∙ sym (if_neg (laws.account_discrete a b) ne _ _))

  record_data-Does :
      (origin : Origin) (rec : Record) (s : State)
      → AllValid t laws s
      → leb (size_hint rec) maximum_message_size ≡ true
      → (signer : Result AccountId) → ensure_signed origin ≡ signer
      → Does
          (record_data t origin rec s)
          (sends t laws.account_discrete signer rec (now s) (log t s))
  record_data-Does origin rec s v small (err e) bad =
      (s, record_data-bad_origin t laws origin rec s e small bad, v, λ b. refl)
  record_data-Does origin rec s v small (ok a) signed = (
    recorded t a rec s,
    record_data-ok t laws origin a rec s small signed,
    recorded-valid t laws a rec s v,
    log-recorded a rec s v,
  )

  erase-Does :
      (fuel : ℕ) (origin : Origin) (s : State)
      → window_size ≤ fuel
      → AllValid t laws s
      → (signer : Result AccountId) → ensure_signed origin ≡ signer
      → Does (erase t fuel origin s) (wipes t laws.account_discrete signer (log t s))
  erase-Does fuel origin s enough v (err e) bad =
      (s, erase-bad_origin t laws fuel origin s e bad, v, λ b. refl)
  erase-Does fuel origin s enough v (ok a) signed =
      let l = slots (datalog_index.get s a) window_size in
      (
        cleared t a l s,
        erase-ok t laws fuel origin a s enough (v a) signed,
        cleared-valid t laws a l s v,
        log-cleared a l s,
      )

  -- Where every index is valid, a call returns within `window_size` rounds, with the result and the
  -- events of the answer at this moment, and leaves every index valid and in the storage of every
  -- account the log that the answer says: an accepted record at the end of its sender's log, of which
  -- the last `window_size - 1` items are kept, an empty log for who erases it, and all other logs as
  -- they were.
  pub dispatch-Does :
      (fuel : ℕ) (origin : Origin) (c : Call Record) (s : State)
      → window_size ≤ fuel
      → AllValid t laws s
      → Does
          (dispatch t fuel origin c s)
          (answer t laws.account_discrete origin c (now s) (log t s))
  unfolding dispatch answer
  dispatch-Does fuel origin (record_call rec) s enough v =
      elim (Bool-cases (leb (size_hint rec) maximum_message_size)) [
        | inr big ↦ rw big (s, record_data-too_big t laws origin rec s big, v, λ b. refl)
        | inl small ↦ rw small (record_data-Does origin rec s v small (ensure_signed origin) refl)
      ]
  dispatch-Does fuel origin erase_call s enough v =
      erase-Does fuel origin s enough v (ensure_signed origin) refl

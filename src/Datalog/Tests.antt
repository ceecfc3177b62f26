-- ===== src/Datalog/Tests.antt =====
-- The theorems about the pallet at concrete states.
pub mod Fixture
mod Reached
mod Source
mod Seen
use mathlib.Core.Logic.{ite, if_pos, if_neg}
use native.Mathlib.Decide.{ℕ_discrete}
use ipci_blockchain.Prelude.{
  ℕ, ◌≤◌, ◌<◌, ◌^◌, ◌≡◌, ◌≢◌, refl, Option, none, some, List, [], ◌∷◌, arith, length, keep_last,
  foldl, ◌+◌, ◌-◌, ◌%◌, ◌++◌, min,
}
use ipci_blockchain.Datalog.RingBuffer.{
  RingBufferIndex, next, default_index, add, fold_iter, iter_next, iter,
}
use ipci_blockchain.Datalog.Storage.{StorageMap, IsStorageMap}
use ipci_blockchain.Datalog.Pallet.{
  Trait, Result, ok, err, bad_origin, RingBufferItem, Event, new_record, erased, record_call,
  erase_call, dispatch, data_of, record_data, erase,
}
use ipci_blockchain.Datalog.Pallet.Laws.{IsTrait}
use ipci_blockchain.Datalog.RingBuffer.Bounds.{IsValid, next-eq-mod, add-IsValid}
use ipci_blockchain.Datalog.RingBuffer.Window.{window, slots}
use ipci_blockchain.Datalog.RingBuffer.Slots.{slots-add, fold_iter-slots}
use ipci_blockchain.Datalog.RingBuffer.Loop.{fold_iter_diverges}
use ipci_blockchain.Datalog.Pallet.Outcome.{log, recorded}
use ipci_blockchain.Datalog.Pallet.Effect.{Effect, dispatch-Effect}
use ipci_blockchain.Datalog.Pallet.Recorded.{log-recorded_self}
use ipci_blockchain.Datalog.Pallet.Leak.{evicted_survives_erase}
use ipci_blockchain.Datalog.Pallet.History.{Reach, start, call, data_of-eq-history}
use ipci_blockchain.Datalog.Pallet.Faithful.{history}
use ipci_blockchain.Datalog.Weight.{DbWeight, record_weight}
use ipci_blockchain.Datalog.Weight.Accesses.{
  counting, fresh, accesses, record_data-accesses, erase-accesses,
}
use Fixture.{Account, empty_item, Bytes, Chain, pallet, pallet-IsTrait, slot_discrete}

-- the state after a call, and its events, for tests of calls that return
abbrev pub then_state :
    Chain → Option (Result (Unit {0}) × Chain × List (Event Account ℕ Bytes)) → Chain
then_state s none = s
then_state s (some (r, s', es)) = s'

abbrev pub new_chain : Chain
new_chain = record { clock = 5; old = λ a. []; index = λ a. default_index; item = λ k. empty_item }

-- `record` by account 7 on the pallet with three slots
abbrev send : ℕ → Chain → Chain
send b s = then_state s (dispatch (pallet 3) 3 (some 7) (record_call (b ∷ [])) s)

abbrev wipe : Chain → Chain
wipe s = then_state s (dispatch (pallet 3) 3 (some 7) erase_call s)

abbrev sent : ℕ → Event Account ℕ Bytes
sent b = new_record 7 5 (b ∷ [])

laws₃ : IsTrait (pallet 3)
laws₃ = pallet-IsTrait 3 (omega arith) (omega arith)

-- three records on a window of three slots, of which the last two are kept
three_sent :
    Reach
      (pallet 3)
      3
      new_chain
      (send 3 (send 2 (send 1 new_chain)))
      (sent 1 ∷ sent 2 ∷ sent 3 ∷ [])
unfolding dispatch record_data slot_discrete ℕ_discrete
three_sent =
    call (some 7) (record_call (3 ∷ [])) (ok tt)
      (call (some 7) (record_call (2 ∷ [])) (ok tt)
        (call (some 7) (record_call (1 ∷ [])) (ok tt) start refl) refl)
      refl

data_of-eq-history_example :
    data_of (pallet 3) 3 7 (send 3 (send 2 (send 1 new_chain)))
    ≡ some (keep_last 2 (history (laws₃.account_discrete) 7 (sent 1 ∷ sent 2 ∷ sent 3 ∷ [])))
data_of-eq-history_example =
    data_of-eq-history (pallet 3) laws₃ 3 new_chain 7 (omega arith) (λ b. refl) three_sent

kept_two :
    data_of (pallet 3) 3 7 (send 3 (send 2 (send 1 new_chain)))
    ≡ some (record { 0 = 5; 1 = 2 ∷ [] } ∷ record { 0 = 5; 1 = 3 ∷ [] } ∷ [])
unfolding data_of dispatch record_data add iter_next fold_iter slot_discrete ℕ_discrete
kept_two = refl

-- every account with the slots 0 and 1 of three in use
abbrev full : Chain
full = record {
  clock = 9;
  old = λ a. [];
  index = λ a. record { start = 0; end = 2 };
  item = λ k. record { 0 = k.1; 1 = k.0 ∷ [] };
}

full-IsValid : IsValid (full.index 7) 3
full-IsValid = omega arith

evicted_survives_erase_example :
    (s' s'' : Chain) × (record_data (pallet 3) (some 7) (4 ∷ []) full
      ≡ some (ok tt, s', new_record 7 9 (4 ∷ []) ∷ []))
    × (erase (pallet 3) 3 (some 7) s' ≡ some (ok tt, s'', erased 7 ∷ []))
    × (log (pallet 3) s'' 7 ≡ [])
    × (s''.item (7, 0) ≡ record { 0 = 0; 1 = 7 ∷ [] })
unfolding log window
evicted_survives_erase_example =
    evicted_survives_erase (pallet 3) laws₃ 3 (some 7) 7 (4 ∷ []) full
      (record { 0 = 0; 1 = 7 ∷ [] }) (record { 0 = 1; 1 = 7 ∷ [] } ∷ []) (omega arith) full-IsValid
      (omega arith) refl refl refl

slots-add_example :
    slots (add (full.index 7) 3).1 3 ≡ keep_last 2 (slots (full.index 7) 3 ++ 2 ∷ [])
slots-add_example = slots-add 3 full-IsValid

fold_iter-slots_example :
    fold_iter 3 (iter (full.index 7) 3) (λ (n : ℕ) i. n + i) 0
    ≡ some (foldl (λ (n : ℕ) i. n + i) 0 (slots (full.index 7) 3))
fold_iter-slots_example = fold_iter-slots 3 (λ n i. n + i) 0 full-IsValid (omega arith)

-- a log written with a window of 8 slots, read with a window of 3
fold_iter_diverges_example :
    fold_iter 1000 (iter (record { start = 0; end = 5 }) 3) (λ (n : ℕ) i. n + i) 0 ≡ none
fold_iter_diverges_example =
    fold_iter_diverges 1000 (record { start = 0; end = 5 }) 3 (λ n i. n + i) 0 (omega arith)
      (omega arith) (omega arith)

record_data-accesses_example :
    (reads : ℕ) × (writes : ℕ) × (accesses
        (pallet 3)
        (record_data (counting (pallet 3)) (some 7) (1 ∷ []) (fresh new_chain))
      ≡ some (reads, writes))
    × ((db : DbWeight)
        → record_weight db
          ≡ min (min (500_000 + db.reads (reads + 1)) (2 ^ 64 - 1) + db.writes writes) (2 ^ 64 - 1))
record_data-accesses_example =
    record_data-accesses (pallet 3) (some 7) 7 (1 ∷ []) new_chain refl refl

-- two slots of three are in use, so the bound is attained
erase-accesses_example :
    (n : ℕ) × (accesses (pallet 3) (erase (counting (pallet 3)) 3 (some 7) (fresh full))
      ≡ some (1, n))
    × (n ≤ 1 + 3)
erase-accesses_example =
    erase-accesses (pallet 3) laws₃ 3 (some 7) 7 full (omega arith) full-IsValid refl

-- ===== src/Datalog/Tests/Reached.antt =====
-- The theorems about sequences of calls of the pallet, on a chain with a window of three slots.
use mathlib.Core.Logic.{if_neg}
use native.Mathlib.Decide.{ℕ_discrete}
use ipci_blockchain.Prelude.{ℕ, List, length, ◌≤◌, ◌≡◌, ◌⊎◌, refl, sym, some, [], ◌∷◌, arith}
use ipci_blockchain.Datalog.RingBuffer.{add}
use ipci_blockchain.Datalog.RingBuffer.Window.{window}
use ipci_blockchain.Datalog.Pallet.Authentic.{Each, SentItem, data_of_authentic}
use ipci_blockchain.Datalog.Pallet.{
  RingBufferItem, ok, record_call, dispatch, record_data, data_of, new_record,
}
use ipci_blockchain.Datalog.Pallet.History.{Reach, start, call}
use ipci_blockchain.Datalog.Pallet.Bounded.{one_leftover}
use ipci_blockchain.Datalog.Pallet.Isolation.{data_of_isolated}
use ipci_blockchain.Datalog.Tests.{new_chain, send, sent, laws₃, three_sent, then_state}
use ipci_blockchain.Datalog.Tests.Fixture.{Chain, empty_item, pallet, slot_discrete}

-- the slots 1 and 2 are in use, and 0 has the record that was evicted
one_leftover_example :
    ◌≡◌ {A = _} ((send 3 (send 2 (send 1 new_chain))).item (7, 0)) empty_item
    ⊎ ((send 3 (send 2 (send 1 new_chain))).item (7, 3) ≡ empty_item)
unfolding dispatch record_data add window slot_discrete ℕ_discrete
one_leftover_example =
    one_leftover (pallet 3) laws₃ 3 new_chain 7 0 3 (omega arith) (λ b. refl) (λ k. refl) three_sent
      (omega arith) (omega arith) (omega arith)

-- `record` by account 8
abbrev send_other : Chain → Chain
send_other s = then_state s (dispatch (pallet 3) 3 (some 8) (record_call (9 ∷ [])) s)

alone : Reach (pallet 3) 3 new_chain (send 1 new_chain) (sent 1 ∷ [])
unfolding dispatch record_data slot_discrete ℕ_discrete
alone = call (some 7) (record_call (1 ∷ [])) (ok tt) start refl

accompanied :
    Reach
      (pallet 3)
      3
      new_chain
      (send 1 (send_other new_chain))
      (new_record 8 5 (9 ∷ []) ∷ sent 1 ∷ [])
unfolding dispatch record_data slot_discrete ℕ_discrete
accompanied =
    call (some 7) (record_call (1 ∷ [])) (ok tt)
      (call (some 8) (record_call (9 ∷ [])) (ok tt) start refl) refl

data_of_isolated_example :
    data_of (pallet 3) 3 7 (send 1 new_chain)
    ≡ data_of (pallet 3) 3 7 (send 1 (send_other new_chain))
data_of_isolated_example =
    data_of_isolated (pallet 3) laws₃ 3 new_chain new_chain 7 (omega arith) (λ b. refl) (λ b. refl)
      alone accompanied (sym (if_neg (laws₃.account_discrete 8 7) (omega arith) _ _))

data_of_authentic_example :
    (items : List (RingBufferItem ℕ (List ℕ))) × (data_of
        (pallet 3)
        3
        7
        (send 3 (send 2 (send 1 new_chain)))
      ≡ some items)
    × (length items ≤ 2)
    × Each (SentItem (pallet 3) three_sent 7) items
data_of_authentic_example =
    data_of_authentic (pallet 3) laws₃ 3 new_chain 7 (omega arith) (λ b. refl) three_sent

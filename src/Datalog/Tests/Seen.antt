-- ===== src/Datalog/Tests/Seen.antt =====
-- The abstract log of the pallet on the chain with a window of three slots.
use ipci_blockchain.Prelude.{◌≡◌, ℕ, refl, Option, none, some, List, [], ◌∷◌, arith}
use ipci_blockchain.Datalog.Pallet.{Result, Event, record_call, erase_call, dispatch}
use ipci_blockchain.Datalog.Pallet.Outcome.{log}
use ipci_blockchain.Datalog.Pallet.Refines.{answer, Does, dispatch-Does}
use ipci_blockchain.Datalog.Pallet.Timestamp.{Clock}
use ipci_blockchain.Datalog.Pallet.Old.{Drops, dispatch-Drops}
use ipci_blockchain.Datalog.Pallet.Runs.{Request, call, query, run, replies, run-replies}
use ipci_blockchain.Datalog.Tests.{full, full-IsValid, laws₃}
use ipci_blockchain.Datalog.Tests.Fixture.{Account, Bytes, Chain, pallet}

-- a record by account 7, whose log is full
dispatch-Does_example :
    Does (pallet 3) laws₃ (dispatch (pallet 3) 3 (some 7) (record_call (4 ∷ [])) full) (
      answer
        (pallet 3)
        laws₃.account_discrete
        (some 7)
        (record_call (4 ∷ []))
        9
        (log (pallet 3) full))
dispatch-Does_example =
    dispatch-Does (pallet 3) laws₃ 3 (some 7) (record_call (4 ∷ [])) full (omega arith)
      (λ a. full-IsValid)

abbrev clock : Clock (pallet 3)
clock = record {
  set = λ m s. record s { clock = m };
  now-set = λ m s. refl;
  index-set = λ m s a. refl;
  item-set = λ m s a i. refl;
}

-- a record, a query, an erase that nobody signed, and another query
abbrev requests : List (Request ℕ (Option Account) Account Bytes)
requests =
    call 12 (some 7) (record_call (4 ∷ [])) ∷ query 7 ∷ call 13 none erase_call ∷ query 8 ∷ []

run-replies_example :
    run (pallet 3) clock.set 3 requests full
    ≡ some (replies (pallet 3) laws₃.account_discrete requests (log (pallet 3) full))
run-replies_example =
    run-replies (pallet 3) laws₃ clock 3 (omega arith) requests full (λ a. full-IsValid)

-- accounts 7 and 8 with a value of the previous version
abbrev migrating : Chain
migrating = record full { old = λ a. (1, 2 ∷ []) ∷ [] }

dispatch-Drops_example :
    (x : Result (Unit {0}) × Chain × List (Event Account ℕ Bytes)) × (dispatch
        (pallet 3)
        3
        (some 7)
        (record_call (4 ∷ []))
        migrating
      ≡ some x)
    × Drops (pallet 3) (some 7) (x.0) migrating (x.1)
dispatch-Drops_example =
    dispatch-Drops (pallet 3) laws₃ 3 (some 7) (record_call (4 ∷ [])) migrating (omega arith)
      (λ a. full-IsValid)

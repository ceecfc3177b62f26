-- ===== src/Datalog/Tests/Source.antt =====
-- The tests of pallets/datalog/src/lib.rs, run on the model of the pallet.
use native.Mathlib.Decide.{ℕ_discrete}
use ipci_blockchain.Prelude.{
  Bool, true, false, ◌&&◌, leb, length, ℕ, zero, suc, ◌+◌, ◌≡◌, refl, Option, none, some, List, [],
  ◌∷◌,
}
use ipci_blockchain.Datalog.RingBuffer.{default_index, add, fold_iter, iter_next}
use ipci_blockchain.Datalog.Pallet.{
  Trait, Result, ok, DispatchError, err, bad_origin, in_module, record_too_big, RingBufferItem,
  Event, record_data, erase, data_of,
}
use ipci_blockchain.Datalog.Tests.Fixture.{Account, Bytes, Chain, empty_item, pallet, slot_discrete}

-- `WINDOW`, and the pallet of the tests
abbrev window_of_tests : ℕ
window_of_tests = 20

abbrev datalog_of_tests : Trait Chain (Option Account) Account ℕ Bytes
datalog_of_tests = record (pallet window_of_tests) { maximum_message_size = 512 }

-- `new_test_ext`
abbrev new_test_ext : Chain
new_test_ext = record {
  clock = 0;
  old = λ a. [];
  index = λ a. default_index;
  item = λ k. empty_item;
}

abbrev state_of : Chain → Option (Result (Unit {0}) × Chain × List (Event Account ℕ Bytes)) → Chain
state_of s none = s
state_of s (some (r, s', es)) = s'

abbrev result_of :
    Option (Result (Unit {0}) × Chain × List (Event Account ℕ Bytes)) → Option (Result (Unit {0}))
result_of none = none
result_of (some (r, s', es)) = some r

abbrev sender : Account
sender = 1

abbrev stored : Bytes → Chain → Chain
stored rec s = state_of s (record_data datalog_of_tests (some sender) rec s)

abbrev wiped : Chain → Chain
wiped s = state_of s (erase datalog_of_tests window_of_tests (some sender) s)

abbrev item : ℕ → Bytes → RingBufferItem ℕ Bytes
item now rec = record { 0 = now; 1 = rec }

-- b"datalog"
abbrev word : Bytes
word = 100 ∷ 97 ∷ 116 ∷ 97 ∷ 108 ∷ 111 ∷ 103 ∷ []

-- `i.to_be_bytes()`, of a `u64` below 256
abbrev to_be_bytes : ℕ → Bytes
to_be_bytes i = 0 ∷ 0 ∷ 0 ∷ 0 ∷ 0 ∷ 0 ∷ 0 ∷ i ∷ []

-- `for i in 0..n`
abbrev stored_upto : ℕ → Chain
stored_upto zero = new_test_ext
stored_upto (suc i) = stored (to_be_bytes i) (stored_upto i)

-- `(from..from + n).map(…)`
abbrev numbered : ℕ → ℕ → List (RingBufferItem ℕ Bytes)
numbered from zero = []
numbered from (suc n) = item 0 (to_be_bytes from) ∷ numbered (from + 1) n

-- `assert_ok!` and `assert_err!`
abbrev EndsWith :
    Result (Unit {0}) → Option (Result (Unit {0}) × Chain × List (Event Account ℕ Bytes)) → Type 0
EndsWith r done = result_of done ≡ some r

abbrev Ok : Option (Result (Unit {0}) × Chain × List (Event Account ℕ Bytes)) → Type 0
Ok = EndsWith (ok tt)

abbrev Err :
    DispatchError → Option (Result (Unit {0}) × Chain × List (Event Account ℕ Bytes)) → Type 0
Err e = EndsWith (err e)

-- `Datalog::record` and `Datalog::erase` by the sender of the tests, and `Datalog::data`
abbrev sends : Bytes → Chain → Option (Result (Unit {0}) × Chain × List (Event Account ℕ Bytes))
sends rec s = record_data datalog_of_tests (some sender) rec s

abbrev erases : Chain → Option (Result (Unit {0}) × Chain × List (Event Account ℕ Bytes))
erases s = erase datalog_of_tests window_of_tests (some sender) s

abbrev data_from : Chain → Option (List (RingBufferItem ℕ Bytes))
data_from s = data_of datalog_of_tests window_of_tests sender s

-- What each test asserts, and that it holds.
abbrev TestRingbufferIndex : Type 0
TestRingbufferIndex =
    (default_index.start ≡ default_index.end)
    × (default_index.start ≡ 0)
    × ((add default_index 20).0 ≡ 0)
    × ((add default_index 20).1.end ≡ 1)

TestRingbufferIndex-passes : TestRingbufferIndex
unfolding add
TestRingbufferIndex-passes = (refl, refl, refl, refl)

abbrev TestStoreData : Type 0
TestStoreData =
    Ok (sends word new_test_ext) × (data_from (stored word new_test_ext) ≡ some (item 0 word ∷ []))

TestStoreData-passes : TestStoreData
unfolding data_of record_data add iter_next fold_iter slot_discrete ℕ_discrete
TestStoreData-passes = (refl, refl)

abbrev is_stored : Option (Result (Unit {0})) → Bool
is_stored (some (ok u)) = true
is_stored _ = false

-- the assertion in the loop of `test_recycle_data`
unfoldable all_stored : ℕ → Bool
all_stored zero = true
all_stored (suc i) = all_stored i && is_stored (result_of (sends (to_be_bytes i) (stored_upto i)))

abbrev TestRecycleData : Type 0
TestRecycleData =
    (all_stored (window_of_tests + 10) ≡ true)
    × (data_from (stored_upto (window_of_tests + 10)) ≡ some (numbered 11 19))
    × ((stored_upto (window_of_tests + 10)).index sender ≡ record { start = 11; end = 10 })

TestRecycleData-passes : TestRecycleData
unfolding all_stored data_of record_data add iter_next fold_iter slot_discrete ℕ_discrete
TestRecycleData-passes = (refl, refl, refl)

abbrev TestEraseData : Type 0
TestEraseData =
    Ok (sends word new_test_ext)
    × ((stored word new_test_ext).old sender ≡ [])
    × (data_from (stored word new_test_ext) ≡ some (item 0 word ∷ []))
    × ((stored word new_test_ext).index sender ≡ record { start = 0; end = 1 })
    × Ok (erases (stored word new_test_ext))
    × (data_from (wiped (stored word new_test_ext)) ≡ some [])
    × ((wiped (stored word new_test_ext)).index sender ≡ record { start = 0; end = 0 })

TestEraseData-passes : TestEraseData
unfolding data_of record_data erase add iter_next fold_iter slot_discrete ℕ_discrete
TestEraseData-passes = (refl, refl, refl, refl, refl, refl, refl)

abbrev TestBadOrigin : Type 0
TestBadOrigin = Err bad_origin (record_data datalog_of_tests none [] new_test_ext)

TestBadOrigin-passes : TestBadOrigin
unfolding record_data
TestBadOrigin-passes = refl

-- `vec![0; n]`
abbrev zeros : ℕ → Bytes
zeros zero = []
zeros (suc n) = 0 ∷ zeros n

abbrev TestBigRecord : Type 0
TestBigRecord =
    Err (in_module record_too_big) (record_data datalog_of_tests none (zeros 600) new_test_ext)

TestBigRecord-passes : TestBigRecord
unfolding record_data
TestBigRecord-passes = refl

-- `Timestamp::set_timestamp`
abbrev set_timestamp : ℕ → Chain → Chain
set_timestamp now s = record s { clock = now }

-- the three states of `test_store_ipfs_hashes`
abbrev first_stored : Bytes → Chain
first_stored rec = stored rec new_test_ext

abbrev second_stored : Bytes → Bytes → Chain
second_stored rec rec2 = stored rec2 (set_timestamp 100 (first_stored rec))

abbrev third_stored : Bytes → Bytes → Bytes → Chain
third_stored rec rec2 rec3 = stored rec3 (set_timestamp 200 (second_stored rec rec2))

-- the test, of the bytes that its three hashes stand for
abbrev TestStoreIpfsHashes : Bytes → Bytes → Bytes → Type 0
TestStoreIpfsHashes rec rec2 rec3 =
    Ok (sends rec new_test_ext)
    × (data_from (first_stored rec) ≡ some (item 0 rec ∷ []))
    × Ok (sends rec2 (set_timestamp 100 (first_stored rec)))
    × (data_from (second_stored rec rec2) ≡ some (item 0 rec ∷ item 100 rec2 ∷ []))
    × Ok (sends rec3 (set_timestamp 200 (second_stored rec rec2)))
    × (data_from (third_stored rec rec2 rec3)
        ≡ some (item 0 rec ∷ item 100 rec2 ∷ item 200 rec3 ∷ []))

-- The test passes for any three hashes that decode to no more bytes than the largest record has.
TestStoreIpfsHashes-passes :
    (rec rec2 rec3 : Bytes)
    → leb (length rec) 512 ≡ true
    → leb (length rec2) 512 ≡ true
    → leb (length rec3) 512 ≡ true
    → TestStoreIpfsHashes rec rec2 rec3
unfolding data_of record_data add iter_next fold_iter slot_discrete ℕ_discrete
TestStoreIpfsHashes-passes rec rec2 rec3 h h2 h3 =
    rw (h, h2, h3) (refl, refl, refl, refl, refl, refl)

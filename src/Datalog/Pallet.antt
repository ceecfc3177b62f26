-- ===== src/Datalog/Pallet.antt =====
-- pallets/datalog/src/lib.rs: the module `Module<T>` with its calls `record` and `erase`, and the
-- query `data`, over the storage of the framework.
pub mod Laws
pub mod Outcome
pub mod Recorded
pub mod Cleared
pub mod Effect
pub mod Valid
pub mod Faithful
pub mod History
pub mod Refines
pub mod Timestamp
pub mod Runs
pub mod Old
pub mod Leftover
pub mod Bounded
pub mod Isolation
pub mod Authentic
pub mod Leak
use ipci_blockchain.Prelude.{ℕ, ◌++◌, Bool, true, false, Option, none, some, List, [], ◌∷◌, leb}
use ipci_blockchain.Datalog.RingBuffer.{RingBufferIndex, add, iter, fold_iter}
use ipci_blockchain.Datalog.Storage.{StorageMap}

-- `Error`
pub data Error : Type 0 where
  record_too_big : Error

-- `DispatchError`, as far as the pallet's calls return it
pub data DispatchError : Type 0 where
  bad_origin : DispatchError
  in_module : Error → DispatchError

-- `DispatchResult`, and the results of the calls in it
pub data Result {ℓ} (A : Type ℓ) : Type ℓ where
  ok : A → Result A
  err : DispatchError → Result A

-- `RingBufferItem`: the moment, then the data
pub record RingBufferItem (Moment Record : Type 0) : Type 0 where
  pub «0» : Moment
  pub «1» : Record

-- `RawEvent`
pub data Event (AccountId Moment Record : Type 0) : Type 0 where
  new_record : AccountId → Moment → Record → Event AccountId Moment Record
  erased : AccountId → Event AccountId Moment Record
  record_sent : AccountId → Event AccountId Moment Record

-- `Call`
pub data Call (Record : Type 0) : Type 0 where
  record_call : Record → Call Record
  erase_call : Call Record

-- `Store`, the three maps of `decl_storage!` in the state of the chain
pub record Store (State AccountId Moment Record : Type 0) : Type 0 where
  pub datalog : StorageMap State AccountId (List (Moment × Record))
  pub datalog_index : StorageMap State AccountId RingBufferIndex
  pub datalog_item : StorageMap State (AccountId × ℕ) (RingBufferItem Moment Record)

-- `Trait`, with what the pallet takes from the framework: the state of the chain with the store, the
-- source of time, the origin check, and the codec's size hint.
pub record Trait (State Origin AccountId Moment Record : Type 0) : Type 0 where
  pub ensure_signed : Origin → Result AccountId
  pub now : State → Moment
  pub size_hint : Record → ℕ
  pub default_record : Record
  pub default_moment : Moment
  pub window_size : ℕ
  pub maximum_message_size : ℕ
  pub store : Store State AccountId Moment Record
  pub open store use *

-- A call on the state of the chain: `none` while its loop has not ended within the fuel, else the
-- result, the state left behind (also beside an error), and the events deposited, in order.
abbrev pub M : Type 0 → Type 0 → Type 0 → Type 0
M State Ev A = State → Option (Result A × State × List Ev)

module _ {State Ev B : Type 0} where
  abbrev then_events :
      List Ev → Option (Result B × State × List Ev) → Option (Result B × State × List Ev)
  then_events es none = none
  then_events es (some (r, s, es')) = some (r, s, es ++ es')

module _ {State Ev A B : Type 0} where
  abbrev continue :
      Result A → (A → M State Ev B) → State → List Ev → Option (Result B × State × List Ev)
  continue (ok a) f s es = then_events es (f a s)
  continue (err e) f s es = some (err e, s, es)

  infixl 10 ◌>>=◌ ◌>>◌
  abbrev pub ◌>>=◌ : M State Ev A → (A → M State Ev B) → M State Ev B
  ◌>>=◌ m f s = elim (m s) [ none ↦ none | some (r, s', es) ↦ continue r f s' es ]

  abbrev pub ◌>>◌ : M State Ev A → M State Ev B → M State Ev B
  m >> n = m >>= λ _. n

module _ {State Ev : Type 0} where
  -- `ensure!`
  abbrev ensure : Bool → Error → M State Ev (Unit {0})
  ensure true e s = some (ok tt, s, [])
  ensure false e s = some (err (in_module e), s, [])

  -- `deposit_event`, whose events are collected in order
  abbrev deposit_event : Ev → M State Ev (Unit {0})
  deposit_event e s = some (ok tt, s, e ∷ [])

  abbrev modify : (State → State) → M State Ev (Unit {0})
  modify f s = some (ok tt, f s, [])

  -- a loop that may run out of fuel
  abbrev looping : (State → Option State) → M State Ev (Unit {0})
  looping f s = elim (f s) [ none ↦ none | some s' ↦ some (ok tt, s', []) ]

module _ {State Ev A : Type 0} where
  -- `e?`
  abbrev lift : Result A → M State Ev A
  lift r s = some (r, s, [])

  abbrev gets : (State → A) → M State Ev A
  gets f s = some (ok (f s), s, [])

  -- a storage operation that returns a value
  abbrev with_state : (State → A × State) → M State Ev A
  with_state f s = let (a, s') = f s in some (ok a, s', [])

-- `RingBufferItem::into`
abbrev pub into : {Moment Record : Type 0} → RingBufferItem Moment Record → Moment × Record
into item = (item.«0», item.«1»)

module _ {State Origin AccountId Moment Record : Type 0}
    (t : Trait State Origin AccountId Moment Record) where
  open t use {
    ensure_signed, now, size_hint, default_record, default_moment, window_size,
    maximum_message_size, datalog, datalog_index, datalog_item,
  }

  -- `Default` of `RingBufferItem`
  abbrev pub default_item : RingBufferItem Moment Record
  default_item = record { 0 = default_moment; 1 = default_record }

  -- the closure that `record` passes to `DatalogIndex::mutate`
  abbrev write_item :
      AccountId → RingBufferItem Moment Record → RingBufferIndex → State → RingBufferIndex × State
  write_item sender item idx s =
      let (end, idx') = add idx window_size in (idx', datalog_item.insert (sender, end) item s)

  -- the call `record`
  unfoldable pub record_data : Origin → Record → M State (Event AccountId Moment Record) (Unit {0})
  record_data origin rec = do
    ensure (leb (size_hint rec) maximum_message_size) record_too_big
    sender ← lift (ensure_signed origin)
    modify (datalog.remove sender)
    time ← gets now
    let item : RingBufferItem Moment Record = record { 0 = time; 1 = rec }
    modify (datalog_index.mutate sender (write_item sender item))
    let (time', rec') = into item
    deposit_event (new_record sender time' rec')

  -- the call `erase`; the loop over the iterator has `fuel` rounds
  unfoldable pub erase : ℕ → Origin → M State (Event AccountId Moment Record) (Unit {0})
  erase fuel origin = do
    sender ← lift (ensure_signed origin)
    modify (datalog.remove sender)
    idx ← with_state (datalog_index.take sender)
    looping (λ s.
        fold_iter fuel (iter idx window_size) (λ s' start. datalog_item.remove (sender, start) s')
          s)
    deposit_event (erased sender)

  -- `Module::data`
  unfoldable pub data_of : ℕ → AccountId → State → Option (List (RingBufferItem Moment Record))
  data_of fuel account s =
      fold_iter fuel (iter (datalog_index.get s account) window_size)
        (λ items i. items ++ datalog_item.get s (account, i) ∷ []) []

  -- the dispatch of a `Call`
  unfoldable pub dispatch :
      ℕ → Origin → Call Record → M State (Event AccountId Moment Record) (Unit {0})
  dispatch fuel origin (record_call rec) = record_data origin rec
  dispatch fuel origin erase_call = erase fuel origin

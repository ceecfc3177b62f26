-- ===== src/Runtime/Parameters/Logs.antt =====
-- The logs of the datalog pallet under the parameters of node/runtime/src/lib.rs.
use native.Mathlib.Nat.{suc-mul}
use ipci_blockchain.Prelude.{ℕ, ◌+◌, ◌*◌, ◌≤◌, ◌≡◌, subst, some, List, [], ◌∷◌, length, arith}
use ipci_blockchain.Datalog.RingBuffer.{default_index}
use ipci_blockchain.Datalog.Pallet.{Trait, RingBufferItem, Event, data_of}
use ipci_blockchain.Datalog.Pallet.Laws.{IsTrait}
use ipci_blockchain.Datalog.Pallet.History.{Reach}
use ipci_blockchain.Datalog.Pallet.Authentic.{Each, SentItem, data_of_authentic}
use ipci_blockchain.Runtime.Parameters.{datalog_window_size, datalog_maximum_message_size}

module _ {State Origin AccountId Moment Record : Type 0}
    (t : Trait State Origin AccountId Moment Record) where
  -- the sizes of the records of a log together
  abbrev pub total_size : List (RingBufferItem Moment Record) → ℕ
  total_size [] = 0
  total_size (x ∷ xs) = t.size_hint (x.«1») + total_size xs

  total_size-SentItem :
      {fuel : ℕ} {s₀ s : State} {es : List (Event AccountId Moment Record)}
      (reach : Reach t fuel s₀ s es) (a : AccountId) (xs : List (RingBufferItem Moment Record))
      → Each (SentItem t reach a) xs
      → total_size xs ≤ length xs * t.maximum_message_size
  total_size-SentItem reach a [] h = omega arith
  total_size-SentItem reach a (x ∷ xs) h =
      omega (
        arith,
        h.0.1,
        total_size-SentItem reach a xs h.1,
        suc-mul (length xs) t.maximum_message_size,
      )

module _ {State Origin AccountId Moment Record : Type 0}
    (t : Trait State Origin AccountId Moment Record) (laws : IsTrait t)
    (window : t.window_size ≡ datalog_window_size)
    (largest : t.maximum_message_size ≡ datalog_maximum_message_size) where
  -- Where the pallet has the window and the largest record of the runtime, then from a genesis with an
  -- empty index, after any calls of the pallet and anything else that leaves its storage alone, a query
  -- ends within 128 rounds and returns at most 127 records, of at most 65024 bytes together.
  pub runtime_log_fits :
      (s₀ : State) {s : State} {es : List (Event AccountId Moment Record)} (a : AccountId)
      → ((b : AccountId) → t.datalog_index.get s₀ b ≡ default_index)
      → Reach t datalog_window_size s₀ s es
      → (items : List (RingBufferItem Moment Record)) × (data_of t datalog_window_size a s
          ≡ some items)
        × (length items ≤ 127)
        × (total_size t items ≤ 65024)
  runtime_log_fits s₀ a fresh reach =
      let (items, returns, short, sent) =
        data_of_authentic t laws datalog_window_size s₀ a (omega (arith, window)) fresh reach in
      let few : length items ≤ 127 = omega (arith, short, window) in
      let each : total_size t items ≤ length items * 512 =
        subst (λ n. total_size t items ≤ length items * n) largest
          (total_size-SentItem t reach a items sent) in
      (items, returns, few, omega (arith, few, each))

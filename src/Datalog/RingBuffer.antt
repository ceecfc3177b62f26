-- ===== src/Datalog/RingBuffer.antt =====
-- The ring buffer of pallets/datalog/src/lib.rs: `RingBufferIndex`, a pair of pointers into the
-- `max` slots of an account, and its iterator. The slots themselves are in storage (`Pallet`).
pub mod Bounds
pub mod Window
pub mod Slots
pub mod Contents
pub mod Unused
pub mod Added
pub mod Loop
use ipci_blockchain.Prelude.{ℕ, zero, suc, ◌+◌, ◌%◌, ◌^◌, Option, none, some, if◌then◌else◌, ◌==◌}

-- `RingBufferIndex`; both fields are `u64`.
pub record RingBufferIndex : Type 0 where
  pub start : ℕ
  pub end : ℕ

-- the derived `Default`
abbrev pub default_index : RingBufferIndex
default_index = record { start = 0; end = 0 }

-- `RingBufferIndex::next`: the new value of `*val`; the addition is that of `u64`
unfoldable pub next : ℕ → ℕ → ℕ
next val max = let val' = (val + 1) % 2 ^ 64 in if val' == max then 0 else val'

-- `RingBufferIndex::add`: the slot to write, and the index after the call
unfoldable pub add : RingBufferIndex → ℕ → ℕ × RingBufferIndex
unfolding next
add idx max =
    let v = idx.end in
    let end' = next idx.end max in
    let start' = (if idx.start == end' then next idx.start max else idx.start) in
    (v, record { start = start'; end = end' })

-- `RingBufferIterator`; it borrows the index, which it moves on.
pub record RingBufferIterator : Type 0 where
  pub inner : RingBufferIndex
  pub max : ℕ

-- `RingBufferIndex::iter`
abbrev pub iter : RingBufferIndex → ℕ → RingBufferIterator
iter idx max = record { inner = idx; max = max }

-- `Iterator::next` of `RingBufferIterator`
unfoldable pub iter_next : RingBufferIterator → Option ℕ × RingBufferIterator
unfolding next
iter_next it = if it.inner.end == it.inner.start then (none, it) else (
  some it.inner.start,
  record it { inner = record it.inner { start = next it.inner.start it.max } },
)

-- A loop over the iterator, `for i in it { b = f(b, i) }`; `none` when the fuel ran out first.
unfoldable pub fold_iter {ℓ} : {B : Type ℓ} → ℕ → RingBufferIterator → (B → ℕ → B) → B → Option B
fold_iter zero it f b = none
fold_iter (suc fuel) it f b =
    let (u, it') = iter_next it in elim u [ none ↦ some b | some i ↦ fold_iter fuel it' f (f b i) ]

-- ===== src/Datalog/RingBuffer/Bounds.antt =====
-- Validity of a ring buffer index of pallets/datalog/src/lib.rs.
use ipci_blockchain.Prelude.{ℕ, ◌+◌, ◌%◌, ◌^◌, ◌<◌, ◌≡◌, arith, if◌then◌else◌, ◌==◌}
use native.Mathlib.Nat.{mod_self, mod-eq_of_lt}
use ipci_blockchain.Datalog.RingBuffer.{RingBufferIndex, next, add}

-- Both pointers are slots, and the number of slots is a `u64`.
pub record IsValid (idx : RingBufferIndex) (max : ℕ) : Type 0 where
  pub start_in : idx.start < max
  pub end_in : idx.end < max
  pub max_in : max < 2 ^ 64

-- the slot after `val`
abbrev pub slot_after : ℕ → ℕ → ℕ
slot_after max val = if val + 1 == max then 0 else val + 1

-- On a slot the `u64` addition of `next` does not wrap.
pub next-eq-slot_after :
    (val max : ℕ) → val < max → max < 2 ^ 64 → next val max ≡ slot_after max val
unfolding next
next-eq-slot_after val max h hm = ground arith

-- From a slot, `next` is addition modulo the number of slots.
pub next-eq-mod : (val max : ℕ) → val < max → max < 2 ^ 64 → next val max ≡ (val + 1) % max
next-eq-mod val max h hm =
    ground
      (arith, next-eq-slot_after val max h hm, mod_self max, mod-eq_of_lt {n = val + 1} {m = max})

pub add-IsValid : {idx : RingBufferIndex} (max : ℕ) → IsValid idx max → IsValid (add idx max).1 max
unfolding add
add-IsValid max v = ground arith

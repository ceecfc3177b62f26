-- ===== src/Datalog/RingBuffer/Unused.antt =====
-- Which slots of the ring buffer of pallets/datalog/src/lib.rs are not in use.
use native.Mathlib.Decide.{dec_lt}
use ipci_blockchain.Prelude.{
  ℕ, zero, suc, ◌+◌, ◌-◌, ◌≤◌, ◌<◌, ◌≡◌, ◌≢◌, ◌⊎◌, inl, inr, sym, subst, arith, if◌then◌else◌, leb,
}
use ipci_blockchain.Datalog.RingBuffer.{RingBufferIndex, add}
use ipci_blockchain.Datalog.RingBuffer.Bounds.{IsValid, slot_after}
use ipci_blockchain.Datalog.RingBuffer.Window.{size, window, slots, slot_after-lt}
use ipci_blockchain.Datalog.RingBuffer.Slots.{add-room, add-full, size-room, size-full}
use ipci_blockchain.Datalog.RingBuffer.Contents.{AllSlots}

-- how many slots lie from `s` round to `i`
abbrev pub offset : ℕ → ℕ → ℕ → ℕ
offset max s i = if leb s i then i - s else i + max - s

-- the slot `i` does not hold an item of the buffer
abbrev pub IsUnused : RingBufferIndex → ℕ → ℕ → Type 0
IsUnused idx max i = (max ≤ i) ⊎ (size idx max ≤ offset max idx.start i)

pub offset-slot_after :
    (max s i : ℕ)
    → s < max
    → i < max
    → i ≢ s
    → offset max s i ≡ suc (offset max (slot_after max s) i)
offset-slot_after max s i hs hi ne = ground arith

window-offset :
    (max s i n : ℕ)
    → s < max
    → i < max
    → AllSlots (λ k. k ≢ i) (window max s n)
    → n ≤ offset max s i
unfolding window
window-offset max s i zero hs hi free = omega arith
window-offset max s i (suc n) hs hi free = omega (
  arith,
  offset-slot_after max s i hs hi (λ e. free.0 (sym e)),
  window-offset max (slot_after max s) i n (slot_after-lt max s hs) hi free.1,
)

-- A slot that is none of the slots in use is unused.
pub slots-IsUnused :
    {idx : RingBufferIndex} {max : ℕ} (i : ℕ)
    → IsValid idx max
    → AllSlots (λ k. k ≢ i) (slots idx max)
    → IsUnused idx max i
slots-IsUnused {idx} {max} i v free = elim (dec_lt i max) [
  | yes lt ↦ inr (window-offset max idx.start i (size idx max) v.start_in lt free)
  | no ge ↦ inl (omega arith)
]

-- With room for another item, what is unused after `add` was unused before, and is not the slot written.
pub add-IsUnused_room :
    {idx : RingBufferIndex} (max i : ℕ)
    → IsValid idx max
    → size idx max + 1 < max
    → IsUnused (add idx max).1 max i
    → IsUnused idx max i × (i ≢ idx.end)
add-IsUnused_room {idx} max i v room unused =
    elim (subst (λ idx'. IsUnused idx' max i) (add-room max v room) unused) [
      | inl beyond ↦ (inl beyond, omega arith)
      | inr far ↦
          let more : suc (size idx max) ≤ offset max idx.start i =
            omega (arith, size-room max v room, far) in
          (inr (omega arith), ground arith)
    ]

-- With no room, the only unused slot after `add` is the one that was `start`.
pub add-IsUnused_full :
    {idx : RingBufferIndex} (max i : ℕ)
    → IsValid idx max
    → size idx max + 1 ≡ max
    → i < max
    → IsUnused (add idx max).1 max i
    → i ≡ idx.start
add-IsUnused_full {idx} max i v full lt unused =
    elim (subst (λ idx'. IsUnused idx' max i) (add-full max v full) unused) [
      | inl beyond ↦ absurd (omega arith)
      | inr far ↦
          let all : max ≤ suc (offset max (slot_after max idx.start) i) =
            omega (arith, size-full max v full, far) in
          ground arith
    ]

-- ===== src/Datalog/RingBuffer/Window.antt =====
-- The slots that a ring buffer index of pallets/datalog/src/lib.rs holds, as a window that goes round.
use ipci_blockchain.Prelude.{
  ℕ, zero, suc, ◌+◌, ◌-◌, ◌<◌, ◌≡◌, refl, ap, ◌∙◌, List, [], ◌∷◌, ◌++◌, arith, if◌then◌else◌, leb,
  ltb, length, drop,
}
use ipci_blockchain.Datalog.RingBuffer.{RingBufferIndex}
use ipci_blockchain.Datalog.RingBuffer.Bounds.{IsValid, slot_after}

-- how many slots lie from `start` round to `end`
abbrev pub size : RingBufferIndex → ℕ → ℕ
size idx max = if leb idx.start idx.end then idx.end - idx.start else idx.end + max - idx.start

-- `n` slots from `s` on, going round at `max`
unfoldable pub window : ℕ → ℕ → ℕ → List ℕ
window max s zero = []
window max s (suc n) = s ∷ window max (slot_after max s) n

-- the slots that hold items, the oldest first
abbrev pub slots : RingBufferIndex → ℕ → List ℕ
slots idx max = window max idx.start (size idx max)

pub length-window : (max s n : ℕ) → length (window max s n) ≡ n
unfolding window
length-window max s zero = refl
length-window max s (suc n) = ap suc (length-window max (slot_after max s) n)

-- the slot `n` places after `s`
abbrev pub slot_at : ℕ → ℕ → ℕ → ℕ
slot_at max s n = if ltb (s + n) max then s + n else s + n - max

pub window-tail : (max s n : ℕ) → window max (slot_after max s) n ≡ drop 1 (window max s (suc n))
unfolding window
window-tail max s n = refl

pub slot_after-lt : (max s : ℕ) → s < max → slot_after max s < max
slot_after-lt max s h = ground arith

pub slot_at-suc :
    (max s n : ℕ) → s < max → n < max → slot_at max (slot_after max s) n ≡ slot_at max s (suc n)
slot_at-suc max s n h hn = ground arith

pub window-snoc :
    (max s n : ℕ)
    → s < max
    → n < max
    → window max s (suc n) ≡ window max s n ++ slot_at max s n ∷ []
unfolding window
window-snoc max s zero h hn = ap (λ i. i ∷ []) (ground arith)
window-snoc max s (suc n) h hn =
    ap (λ l. s ∷ l)
      (window-snoc max (slot_after max s) n (slot_after-lt max s h) (omega arith)
        ∙ ap (λ i. window max (slot_after max s) n ++ i ∷ []) (slot_at-suc max s n h (omega arith)))

pub size-lt : {idx : RingBufferIndex} {max : ℕ} → IsValid idx max → size idx max < max
size-lt v = ground arith

pub slot_at-size :
    {idx : RingBufferIndex} {max : ℕ}
    → IsValid idx max
    → idx.end ≡ slot_at max idx.start (size idx max)
slot_at-size v = ground arith

-- ===== src/Datalog/RingBuffer/Slots.antt =====
-- What the iterator and `add` of pallets/datalog/src/lib.rs make of the slots in use.
use ipci_blockchain.Prelude.{
  ℕ, zero, suc, ◌+◌, ◌-◌, ◌^◌, ◌≤◌, ◌<◌, ◌≡◌, ◌≢◌, sym, ap, ◌∙◌, [], ◌∷◌, ◌++◌, foldl, none, some,
  arith, length, length-append, drop, keep_last,
}
use native.Mathlib.Decide.{ℕ_discrete}
use ipci_blockchain.Datalog.RingBuffer.{RingBufferIndex, add, iter, iter_next, fold_iter}
use ipci_blockchain.Datalog.RingBuffer.Bounds.{IsValid, slot_after, next-eq-slot_after}
use ipci_blockchain.Datalog.RingBuffer.Window.{
  size, window, slots, length-window, slot_at, window-tail, slot_after-lt, slot_at-suc, window-snoc,
  size-lt, slot_at-size,
}

iter_next-done :
    (s e max : ℕ)
    → e ≡ s
    → iter_next (iter (record { start = s; end = e }) max)
      ≡ (none, iter (record { start = s; end = e }) max)
unfolding iter_next
iter_next-done s e max h = ground arith

pub iter_next-some :
    (s e max : ℕ)
    → s < max
    → max < 2 ^ 64
    → e ≢ s
    → iter_next (iter (record { start = s; end = e }) max)
      ≡ (some s, iter (record { start = slot_after max s; end = e }) max)
unfolding iter_next
iter_next-some s e max h hm ne = ground (arith, next-eq-slot_after s max h hm)

-- A loop over a valid index visits its slots in order, and ends, given more fuel than slots.
fold_window {ℓ} :
    {B : Type ℓ} (max e : ℕ) (f : B → ℕ → B) (fuel n s : ℕ) (b : B)
    → s < max
    → e ≡ slot_at max s n
    → max < 2 ^ 64
    → n < max
    → n < fuel
    → fold_iter fuel (iter (record { start = s; end = e }) max) f b
      ≡ some (foldl f b (window max s n))
unfolding fold_iter window
fold_window max e f zero n s b hs he hm hn hf = absurd (omega arith)
fold_window max e f (suc fuel) zero s b hs he hm hn hf =
    rw (iter_next-done s e max (ground arith), fold_iter)
fold_window max e f (suc fuel) (suc n) s b hs he hm hn hf =
    rw (iter_next-some s e max hs hm (ground arith), fold_iter)
      (rw (iter_next-some s e max hs hm (ground arith)) (
        fold_window max e f fuel n (slot_after max s) (f b s) (slot_after-lt max s hs)
          (he ∙ sym (slot_at-suc max s n hs (omega arith))) hm (omega arith) (omega arith)))

-- The loop over a valid index folds over its slots, the oldest first, and `max` rounds of fuel are
-- enough.
pub fold_iter-slots {ℓ} :
    {B : Type ℓ} {idx : RingBufferIndex} {max : ℕ} (fuel : ℕ) (f : B → ℕ → B) (b : B)
    → IsValid idx max
    → max ≤ fuel
    → fold_iter fuel (iter idx max) f b ≡ some (foldl f b (slots idx max))
fold_iter-slots {idx = idx} {max = max} fuel f b v h =
    fold_window max idx.end f fuel (size idx max) idx.start b v.start_in (slot_at-size v) v.max_in
      (size-lt v) (omega (arith, size-lt v))

-- the two ways in which `add` moves the index on
pub add-room :
    {idx : RingBufferIndex} (max : ℕ)
    → IsValid idx max
    → size idx max + 1 < max
    → (add idx max).1 ≡ record { start = idx.start; end = slot_after max idx.end }
unfolding add
add-room {idx} max v h = ground (arith, next-eq-slot_after idx.end max v.end_in v.max_in)

pub add-full :
    {idx : RingBufferIndex} (max : ℕ)
    → IsValid idx max
    → size idx max + 1 ≡ max
    → (add idx max).1 ≡ record { start = slot_after max idx.start; end = slot_after max idx.end }
unfolding add
add-full {idx} max v h = ground (
  arith,
  next-eq-slot_after idx.end max v.end_in v.max_in,
  next-eq-slot_after idx.start max v.start_in v.max_in,
)

pub size-room :
    {idx : RingBufferIndex} (max : ℕ)
    → IsValid idx max
    → size idx max + 1 < max
    → size (record { start = idx.start; end = slot_after max idx.end }) max ≡ suc (size idx max)
size-room max v h = ground arith

pub size-full :
    {idx : RingBufferIndex} (max : ℕ)
    → IsValid idx max
    → size idx max + 1 ≡ max
    → size (record { start = slot_after max idx.start; end = slot_after max idx.end }) max
      ≡ size idx max
size-full max v h = ground arith

-- the window with the slot `end` behind it
slots-snoc :
    {idx : RingBufferIndex} (max : ℕ)
    → IsValid idx max
    → window max idx.start (suc (size idx max)) ≡ slots idx max ++ idx.end ∷ []
slots-snoc {idx} max v =
    window-snoc max idx.start (size idx max) v.start_in (size-lt v)
    ∙ ap (λ i. slots idx max ++ i ∷ []) (sym (slot_at-size v))

length-slots-snoc :
    (idx : RingBufferIndex) (max : ℕ) → length (slots idx max ++ idx.end ∷ []) ≡ size idx max + 1
length-slots-snoc idx max =
    length-append (slots idx max) (idx.end ∷ [])
    ∙ ap (λ n. n + 1) (length-window max idx.start (size idx max))

-- `add` writes the slot `end`, appends it to the slots, and drops the oldest when all would be in use.
pub slots-add :
    {idx : RingBufferIndex} (max : ℕ)
    → IsValid idx max
    → slots (add idx max).1 max ≡ keep_last (max - 1) (slots idx max ++ idx.end ∷ [])
slots-add {idx} max v = elim (ℕ_discrete (size idx max + 1) max) [
  | no ne ↦
      let room : size idx max + 1 < max = omega (arith, size-lt v) in
      rw (add-room max v room, size-room max v room, slots-snoc max v)
        (ap (λ n. drop n (slots idx max ++ idx.end ∷ [])) {x = 0}
          (omega (arith, length-slots-snoc idx max)))
  | yes full ↦
      rw (add-full max v full, size-full max v full)
        (window-tail max idx.start (size idx max)
          ∙ ap (drop 1) (slots-snoc max v)
          ∙ ap (λ n. drop n (slots idx max ++ idx.end ∷ [])) {x = 1}
              (omega (arith, length-slots-snoc idx max)))
]

-- When one slot is free, `add` moves `end` to the slot that was `start`.
pub end-add_full :
    {idx : RingBufferIndex} (max : ℕ)
    → IsValid idx max
    → size idx max + 1 ≡ max
    → (add idx max).1.end ≡ idx.start
end-add_full {idx} max v full = rw (add-full max v full) (ground arith)

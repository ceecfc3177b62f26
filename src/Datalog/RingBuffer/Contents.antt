-- ===== src/Datalog/RingBuffer/Contents.antt =====
-- Which slots are in use in the ring buffer of pallets/datalog/src/lib.rs.
use ipci_blockchain.Prelude.{
  ℕ, zero, suc, ◌<◌, ◌≡◌, ◌≢◌, refl, sym, ap₂, ◌∙◌, List, [], ◌∷◌, map, arith,
}
use ipci_blockchain.Datalog.RingBuffer.{RingBufferIndex, default_index, add}
use ipci_blockchain.Datalog.RingBuffer.Bounds.{IsValid, slot_after}
use ipci_blockchain.Datalog.RingBuffer.Window.{
  size, window, slots, slot_at, slot_after-lt, slot_at-suc, size-lt, slot_at-size,
}

map-window {ℓ} :
    {A : Type ℓ} (f g : ℕ → A) (max e n s : ℕ)
    → ((i : ℕ) → i ≢ e → f i ≡ g i)
    → s < max
    → n < max
    → e ≡ slot_at max s n
    → map f (window max s n) ≡ map g (window max s n)
unfolding window
map-window f g max e zero s same hs hn he = refl
map-window f g max e (suc n) s same hs hn he = ap₂ ◌∷◌ (same s (ground arith)) (
    map-window f g max e n (slot_after max s) same (slot_after-lt max s hs) (omega arith)
      (he ∙ sym (slot_at-suc max s n hs (omega arith))))

-- Two functions that agree off the slot `end` agree on the slots in use.
pub map-slots {ℓ} :
    {A : Type ℓ} {idx : RingBufferIndex} {max : ℕ} (f g : ℕ → A)
    → IsValid idx max
    → ((i : ℕ) → i ≢ idx.end → f i ≡ g i)
    → map f (slots idx max) ≡ map g (slots idx max)
map-slots {idx = idx} {max = max} f g v same =
    map-window f g max idx.end (size idx max) idx.start same v.start_in (size-lt v) (slot_at-size v)

-- The default index holds nothing.
pub slots-default : (max : ℕ) → slots default_index max ≡ []
unfolding window
slots-default max = refl

-- a property of every slot of a list
abbrev pub AllSlots : (ℕ → Type 0) → List ℕ → Type 0
AllSlots P [] = Unit {0}
AllSlots P (i ∷ l) = P i × AllSlots P l

window-ne-end :
    (max e n s : ℕ)
    → s < max
    → n < max
    → e ≡ slot_at max s n
    → AllSlots (λ i. i ≢ e) (window max s n)
unfolding window
window-ne-end max e zero s hs hn he = tt
window-ne-end max e (suc n) s hs hn he = (
  ground arith,
  window-ne-end max e n (slot_after max s) (slot_after-lt max s hs) (omega arith)
      (he ∙ sym (slot_at-suc max s n hs (omega arith))),
)

-- The slot `end` is never one of the slots in use.
pub slots-ne-end :
    {idx : RingBufferIndex} {max : ℕ}
    → IsValid idx max
    → AllSlots (λ i. i ≢ idx.end) (slots idx max)
slots-ne-end {idx} {max} v =
    window-ne-end max idx.end (size idx max) idx.start v.start_in (size-lt v) (slot_at-size v)

-- The first slot in use is `start`.
pub head-slots {ℓ} :
    {A : Type ℓ} (f : ℕ → A) (idx : RingBufferIndex) (max : ℕ) (x : A) (rest : List A)
    → map f (slots idx max) ≡ x ∷ rest
    → (0 < size idx max) × (f idx.start ≡ x)
head-slots f idx max x rest = go (size idx max)
  where
    go : (n : ℕ) → map f (window max idx.start n) ≡ x ∷ rest → (0 < n) × (f idx.start ≡ x)
    go zero e = unfold window in cc
    go (suc n) e = (omega arith, unfold window in cc)

-- The slot that `add` writes is not `start`, unless the buffer is empty.
pub add-ne-start :
    {idx : RingBufferIndex} (max : ℕ)
    → IsValid idx max
    → 0 < size idx max
    → (add idx max).0 ≢ idx.start
unfolding add
add-ne-start max v pos e = ground arith

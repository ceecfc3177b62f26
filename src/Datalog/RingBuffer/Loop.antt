-- ===== src/Datalog/RingBuffer/Loop.antt =====
-- The loop over the iterator of pallets/datalog/src/lib.rs on an index of another window.
use ipci_blockchain.Prelude.{ℕ, zero, suc, ◌^◌, ◌≤◌, ◌<◌, ◌≡◌, refl, none, some, arith}
use ipci_blockchain.Datalog.RingBuffer.{RingBufferIndex, iter, iter_next, fold_iter}
use ipci_blockchain.Datalog.RingBuffer.Bounds.{slot_after}
use ipci_blockchain.Datalog.RingBuffer.Slots.{iter_next-some}
use ipci_blockchain.Datalog.RingBuffer.Window.{slot_after-lt}

-- If `end` is no slot of a window of `max` slots, a `u64`, though `start` is one, the loop never ends: no
-- amount of fuel is enough.
pub fold_iter_diverges {ℓ} :
    {B : Type ℓ} (fuel : ℕ) (idx : RingBufferIndex) (max : ℕ) (f : B → ℕ → B) (b : B)
    → idx.start < max
    → max ≤ idx.end
    → max < 2 ^ 64
    → fold_iter fuel (iter idx max) f b ≡ none
unfolding fold_iter
fold_iter_diverges zero idx max f b hs he hm = refl
fold_iter_diverges (suc fuel) idx max f b hs he hm =
    rw (step, fold_iter)
      (rw step (
        fold_iter_diverges fuel (record { start = slot_after max idx.start; end = idx.end }) max f
          (f b idx.start) (slot_after-lt max idx.start hs) he hm))
  where
    step :
        iter_next (iter idx max)
        ≡ (some idx.start, iter (record { start = slot_after max idx.start; end = idx.end }) max)
    step = iter_next-some idx.start idx.end max hs hm (omega arith)

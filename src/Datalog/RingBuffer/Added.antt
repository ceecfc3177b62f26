-- ===== src/Datalog/RingBuffer/Added.antt =====
-- The ring buffer of pallets/datalog/src/lib.rs after any number of additions.
use native.Mathlib.Nat.{mod-add-mod, mod_self, mod-lt, mod-eq_of_lt}
use ipci_blockchain.Prelude.{
  ℕ, zero, suc, ◌+◌, ◌%◌, ◌^◌, ◌<◌, ◌≤◌, ◌≡◌, ◌⊎◌, inl, inr, sym, ◌∙◌, ap, ap₂, arith,
  if◌then◌else◌, ◌==◌, ltb,
}
use ipci_blockchain.Datalog.RingBuffer.{RingBufferIndex, default_index, next, add}
use ipci_blockchain.Datalog.RingBuffer.Bounds.{next-eq-mod}

-- the index after `n` calls of `add` on a new one
pub added : ℕ → ℕ → RingBufferIndex
added max zero = default_index
added max (suc n) = (add (added max n) max).1

-- the oldest slot in use: the first until every slot has been written, then the one behind the next
abbrev pub oldest : ℕ → ℕ → ℕ
oldest max n = if ltb n max then 0 else (n + 1) % max

next-mod : (max n : ℕ) → 0 < max → max < 2 ^ 64 → next (n % max) max ≡ (n + 1) % max
next-mod max n pos small = next-eq-mod (n % max) max (mod-lt n pos) small ∙ mod-add-mod n max 1

oldest_early : (max n : ℕ) → n < max → oldest max n ≡ 0
oldest_early max n h = ground arith

oldest_late : (max n : ℕ) → max ≤ n → oldest max n ≡ (n + 1) % max
oldest_late max n h = ground arith

-- the new start of `add`
abbrev moved : ℕ → ℕ → ℕ → ℕ
moved max start end = if start == end then next start max else start

moved_eq : (max start end : ℕ) → start ≡ end → moved max start end ≡ next end max
moved_eq max start end h = ground arith

moved_ne : (max start end : ℕ) → start < end → moved max start end ≡ start
moved_ne max start end h = ground arith

-- The oldest slot moves on when it is the next to be written.
oldest-suc :
    (max n : ℕ)
    → 0 < max
    → max < 2 ^ 64
    → moved max (oldest max n) ((n + 1) % max) ≡ oldest max (suc n)
oldest-suc max n pos small = elim (order n max) [
  | inl later ↦
      moved_ne max (oldest max n) ((n + 1) % max)
        (omega (arith, oldest_early max n (omega arith), mod-eq_of_lt later))
      ∙ oldest_early max n (omega arith)
      ∙ sym (oldest_early max (suc n) (omega arith))
  | inr now ↦
      moved_eq max (oldest max n) ((n + 1) % max) (meets now)
      ∙ next-mod max (n + 1) pos small
      ∙ ap (λ k. (k + 1) % max) {x = n + 1} {y = suc n} (omega arith)
      ∙ sym (oldest_late max (suc n) (omega arith))
]
  where
    order : (n max : ℕ) → (n + 1 < max) ⊎ (max ≤ n + 1)
    order n max = grind arith

    split : max ≤ n + 1 → (max ≤ n) ⊎ (n + 1 ≡ max)
    split h = grind arith

    meets : max ≤ n + 1 → oldest max n ≡ (n + 1) % max
    meets h = elim (split h) [
      | inl late ↦ oldest_late max n late
      | inr e ↦ oldest_early max n (omega arith) ∙ sym (ap (λ k. k % max) e ∙ mod_self max)
    ]

-- After `n` additions to a new index the next slot to be written is `n` modulo the number of slots.
-- The oldest slot in use is the first, until `n` reaches that number, and then the one behind the next
-- to be written.
pub added-eq :
    (max n : ℕ)
    → 0 < max
    → max < 2 ^ 64
    → added max n ≡ record { start = oldest max n; end = n % max }
unfolding added add next
added-eq max zero pos small =
    ap₂ (λ s e. record { start = s; end = e }) (sym (oldest_early max 0 pos))
      (sym (mod-eq_of_lt pos))
added-eq max (suc n) pos small =
    rw (added-eq max n pos small, next-mod max n pos small)
      (ap (λ s. record { start = s; end = (n + 1) % max }) (oldest-suc max n pos small)
        ∙ ap (λ k. record { start = oldest max (suc n); end = k % max }) {x = n + 1} {y = suc n}
            (omega arith))

-- ===== src/Runtime/Transactions/Created.antt =====
-- Which transactions `create_transaction` makes (node/runtime/src/lib.rs).
use ipci_blockchain.Prelude.{ℕ, ◌-◌, ◌≡◌, ◌↔◌, some, Option-cases, inl, inr, arith}
use ipci_blockchain.Text.{ok, Result-cases}
use ipci_blockchain.Runtime.Transactions.Period.{IsBounded, period-IsBounded}
use ipci_blockchain.Runtime.Transactions.{
  period, block_hash_count, Signing, create_transaction, extra_of, Extra,
}

module _ {Call Era Payload PayloadError Public AccountId Signature Address : Type 0}
    (s : Signing Call Era Payload PayloadError Public AccountId Signature Address) where
  -- the extra data that a transaction is to have
  abbrev pub expected : ℕ → ℕ → ℕ → Extra Era
  expected lifetime nonce block_number = record {
    era = s.mortal lifetime (block_number - 1);
    nonce = nonce;
    tip = 0;
  }

  -- What a transaction consists of.
  abbrev pub Created :
      Call → Public → AccountId → Extra Era → Call × Address × Signature × Extra Era → Type 0
  Created call public account extra made =
      (p : Payload) × (signature : Signature) × (s.new_payload call extra ≡ ok p)
      × (s.sign p public ≡ some signature)
      × (made ≡ (call, s.unlookup account, signature, extra))

  module _
      (deconstruct-new : (call : Call) (extra : Extra Era) (p : Payload)
        → s.new_payload call extra ≡ ok p
        → s.deconstruct p ≡ (call, extra))
      (call : Call) (public : Public) (account : AccountId) (nonce block_number : ℕ)
      (made : Call × Address × Signature × Extra Era) where
    create_transaction-Created :
        create_transaction s call public account nonce block_number ≡ some made
        → Created call public account (expected (period block_hash_count) nonce block_number) made
    unfolding create_transaction extra_of
    create_transaction-Created h =
        elim (Result-cases
          (s.new_payload call (expected (period block_hash_count) nonce block_number))) [
            | inr (e, p) ↦ cc (rw p at h)
            | inl (payload, p) ↦ elim (Option-cases (s.sign payload public)) [
              | inl q ↦ cc (rw (p, q) at h)
              | inr (signature, q) ↦ (
                payload,
                signature,
                p,
                q,
                cc (
                    rw
                      (
                        p,
                        q,
                        deconstruct-new call (expected (period block_hash_count) nonce block_number)
                            payload p,
                      )
                      at h),
              )
            ]
          ]

    Created-create_transaction :
        Created call public account (expected (period block_hash_count) nonce block_number) made
        → create_transaction s call public account nonce block_number ≡ some made
    unfolding create_transaction extra_of
    Created-create_transaction (payload, signature, p, q, e) = rw (
      p,
      q,
      deconstruct-new call (expected (period block_hash_count) nonce block_number) payload p,
      e,
    )

    -- Where a payload gives back the call and the extra data that it was made of, there is a lifetime of
    -- which the following holds. It is a power of two that an era may have, the largest below the number
    -- of blocks whose hashes are kept. A transaction is created exactly when its payload can be made and
    -- signed, and it has the call, the signature, the account's address, the nonce, no tip, and the era of
    -- this lifetime that starts at the block before.
    pub create_transaction_iff :
        (lifetime : ℕ) × IsBounded block_hash_count lifetime
        × ((create_transaction s call public account nonce block_number ≡ some made)
            ↔ Created call public account (expected lifetime nonce block_number) made)
    create_transaction_iff = (
      period block_hash_count,
      period-IsBounded block_hash_count (omega arith) (omega arith),
      (create_transaction-Created, Created-create_transaction),
    )

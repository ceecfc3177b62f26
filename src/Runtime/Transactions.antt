-- ===== src/Runtime/Transactions.antt =====
-- node/runtime/src/lib.rs: `create_transaction`, which signs a call of an off-chain worker.
pub mod Period
pub mod Created
pub mod Extensions
use ipci_blockchain.Prelude.{ℕ, zero, suc, ◌-◌, ◌*◌, ◌/◌, Option, none, some, if◌then◌else◌, leb}
use ipci_blockchain.Text.{Result, ok, err}

-- `checked_next_power_of_two` of the standard library: the first power of two from `p` on that is at
-- least `n`, among `fuel` of them
unfoldable pub next_power_of_two_from : ℕ → ℕ → ℕ → Option ℕ
next_power_of_two_from zero p n = none
next_power_of_two_from (suc fuel) p n =
    let rest = next_power_of_two_from fuel (p * 2) n in if leb n p then some p else rest

-- on a `u32`, which holds 32 powers of two
abbrev pub checked_next_power_of_two : ℕ → Option ℕ
checked_next_power_of_two n = next_power_of_two_from 32 1 n

-- `BlockHashCount`
abbrev pub block_hash_count : ℕ
block_hash_count = 2400

-- the variable `period` of `create_transaction`, of the number of block hashes that are kept
abbrev pub half_or_two : Option ℕ → ℕ
half_or_two (some c) = c / 2
half_or_two none = 2

unfoldable pub period : ℕ → ℕ
period count = half_or_two (checked_next_power_of_two count)

-- the variable `current_block`, of the block number of the system
abbrev pub current_block : ℕ → ℕ
current_block block_number = block_number - 1

-- the tuple `extra`, less the checks that have no argument
pub record Extra (Era : Type 0) : Type 0 where
  pub era : Era
  pub nonce : ℕ
  pub tip : ℕ

-- What the framework and the key type provide: `Era::mortal`, `SignedPayload` with `new` and
-- `deconstruct`, `C::sign` on its encoding, and `Indices::unlookup`.
pub record Signing (Call Era Payload PayloadError Public AccountId Signature Address : Type 0)
    : Type 0 where
  pub mortal : ℕ → ℕ → Era
  pub new_payload : Call → Extra Era → Result PayloadError Payload
  pub deconstruct : Payload → Call × Extra Era
  pub sign : Payload → Public → Option Signature
  pub unlookup : AccountId → Address

module _ {Call Era Payload PayloadError Public AccountId Signature Address : Type 0}
    (s : Signing Call Era Payload PayloadError Public AccountId Signature Address) where
  -- the extra data of a transaction with a nonce, at a block number of the system
  unfoldable pub extra_of : ℕ → ℕ → Extra Era
  extra_of nonce block_number = record {
    era = s.mortal (period block_hash_count) (current_block block_number);
    nonce = nonce;
    tip = 0;
  }

  -- the last lines of `create_transaction`, from the signature on
  abbrev with_signature :
      AccountId → Payload → Option Signature → Option (Call × Address × Signature × Extra Era)
  with_signature account raw_payload none = none
  with_signature account raw_payload (some signature) =
      let (call, extra) = s.deconstruct raw_payload in
      some (call, s.unlookup account, signature, extra)

  abbrev with_payload :
      Public
      → AccountId
      → Result PayloadError Payload
      → Option (Call × Address × Signature × Extra Era)
  with_payload public account (ok raw_payload) =
      with_signature account raw_payload (s.sign raw_payload public)
  with_payload public account (err e) = none

  -- `create_transaction`
  unfoldable pub create_transaction :
      Call → Public → AccountId → ℕ → ℕ → Option (Call × Address × Signature × Extra Era)
  create_transaction call public account nonce block_number =
      with_payload public account (s.new_payload call (extra_of nonce block_number))

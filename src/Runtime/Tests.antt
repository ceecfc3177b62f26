-- ===== src/Runtime/Tests.antt =====
-- The theorems about the runtime's arithmetic at concrete values.
mod Entries
mod Logs
use ipci_blockchain.Prelude.{
  ℕ, zero, suc, Option, none, some, ◌↔◌, ◌+◌, ◌*◌, ◌/◌, ◌%◌, ◌-◌, ◌<◌, ◌≤◌, ◌^◌, ◌^◌, ◌≡◌, refl,
  false, [], ◌∷◌, arith,
}
use native.Mathlib.Nat.{div-mul-le_self}
use ipci_blockchain.Runtime.Constants.{
  deposit, deposit-exact, epoch_duration_in_slots, slot_duration, mito,
}
use ipci_blockchain.Runtime.Votes.Order.{votes-ordered}
use ipci_blockchain.Runtime.Votes.{
  factor, convert, convert_back, u64_max, convert_back-convert, issuance_fits, issuance_wraps,
}
use ipci_blockchain.Runtime.Fees.{polynomial, weight_is_free}
use ipci_blockchain.Text.{ok}
use ipci_blockchain.Runtime.Transactions.{
  period, block_hash_count, Extra, Signing, create_transaction, next_power_of_two_from, extra_of,
}
use ipci_blockchain.Runtime.Transactions.Period.{IsBounded, period-IsBounded}
use ipci_blockchain.Runtime.Transactions.Created.{Created, expected, create_transaction_iff}

epoch_is_ten_minutes : epoch_duration_in_slots * slot_duration ≡ 600_000
epoch_is_ten_minutes = refl

-- the total issuance of `testnet_genesis` with one authority
abbrev testnet_issuance : ℕ
testnet_issuance = 120_500_000 * mito

convert_back-convert_example :
    (convert testnet_issuance mito ≡ mito / factor testnet_issuance)
    × (convert testnet_issuance mito * factor testnet_issuance < 2 ^ 128)
    × (convert_back testnet_issuance (convert testnet_issuance mito)
        ≡ mito / factor testnet_issuance * factor testnet_issuance)
    × (convert_back testnet_issuance (convert testnet_issuance mito) ≤ mito)
    × (mito
        < convert_back testnet_issuance (convert testnet_issuance mito) + factor testnet_issuance)
unfolding factor
convert_back-convert_example =
    convert_back-convert testnet_issuance mito (omega arith) (omega arith)

-- stakes of one and of two tokens
votes-ordered_example :
    (convert testnet_issuance mito ≤ convert testnet_issuance (2 * mito))
    × ((convert testnet_issuance (2 * mito) - convert testnet_issuance mito)
          * factor testnet_issuance
        < (2 * mito - mito) + factor testnet_issuance)
    × (2 * mito - mito
        < (convert testnet_issuance (2 * mito) - convert testnet_issuance mito)
            * factor testnet_issuance
          + factor testnet_issuance)
unfolding factor
votes-ordered_example = votes-ordered testnet_issuance mito (2 * mito) (omega arith) (omega arith)

issuance_wraps_example :
    (u64_max * factor testnet_issuance ≤ testnet_issuance)
    × (convert testnet_issuance (u64_max * factor testnet_issuance) ≡ u64_max)
    × (convert testnet_issuance testnet_issuance
        ≡ testnet_issuance % u64_max / (testnet_issuance / u64_max) - 1)
    × (convert testnet_issuance testnet_issuance
        < convert testnet_issuance (u64_max * factor testnet_issuance))
issuance_wraps_example = issuance_wraps testnet_issuance (omega arith) (omega arith)

weight_is_free_example :
    polynomial (λ p q. p * 1_000_000_000 / q) 125_000_000
    ≡ record { degree = 1; negative = false; coeff_frac = 0; coeff_integer = 0 } ∷ []
weight_is_free_example =
    weight_is_free (λ p q. p * 1_000_000_000 / q) 125_000_000
      (λ p q h. div-mul-le_self (p * 1_000_000_000) q) (omega arith) (omega arith)

-- the period of the runtime's transactions
period_is_2048 : period block_hash_count ≡ 2048
unfolding period next_power_of_two_from
period_is_2048 = refl

-- calls, keys, accounts and signatures that are numbers; the key 0 does not sign
abbrev sign_with : ℕ × Extra (ℕ × ℕ) → ℕ → Option ℕ
sign_with p zero = none
sign_with (call, extra) (suc key) = some (call + key)

abbrev signing : Signing ℕ (ℕ × ℕ) (ℕ × Extra (ℕ × ℕ)) ℕ ℕ ℕ ℕ ℕ
signing = record {
  mortal = λ p b. (p, b);
  new_payload = λ call extra. ok (call, extra);
  deconstruct = λ p. p;
  sign = sign_with;
  unlookup = λ account. account + 100;
}

-- a transaction that is made in block 11, for the era that starts at block 10
abbrev transaction : ℕ × ℕ × ℕ × Extra (ℕ × ℕ)
transaction = (5, 107, 7, record { era = (2048, 10); nonce = 4; tip = 0 })

makes_transaction : create_transaction signing 5 3 7 4 11 ≡ some transaction
unfolding create_transaction extra_of period next_power_of_two_from
makes_transaction = refl

create_transaction_iff_example :
    (lifetime : ℕ) × IsBounded block_hash_count lifetime
    × ((create_transaction signing 5 3 7 4 11 ≡ some transaction)
        ↔ Created signing 5 3 7 (expected signing lifetime 4 11) transaction)
create_transaction_iff_example =
    create_transaction_iff signing (λ call extra p e. cc e) 5 3 7 4 11 transaction

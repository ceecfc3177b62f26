-- ===== src/Runtime/Transactions/Extensions.antt =====
-- node/runtime/src/lib.rs: the signed extensions of a transaction, `SignedExtra`, and the tuple of them
-- that `create_transaction` makes.
use ipci_blockchain.Prelude.{ℕ, ◌-◌, ◌≡◌, refl, List, [], ◌∷◌, map}
use ipci_blockchain.Runtime.Transactions.{Extra, Signing, extra_of, period, block_hash_count}

-- the types of the extensions
pub data ExtensionType : Type 0 where
  spec_version tx_version genesis era nonce weight transaction_payment : ExtensionType

-- `SignedExtra`
abbrev pub signed_extra : List ExtensionType
signed_extra = spec_version ∷ tx_version ∷ genesis ∷ era ∷ nonce ∷ weight ∷ transaction_payment ∷ []

-- an extension with what it is made from
pub data Extension (Era : Type 0) : Type 0 where
  check_spec_version check_tx_version check_genesis : Extension Era
  check_era : Era → Extension Era
  check_nonce : ℕ → Extension Era
  check_weight : Extension Era
  charge_transaction_payment : ℕ → Extension Era

abbrev type_of : {Era : Type 0} → Extension Era → ExtensionType
type_of check_spec_version = spec_version
type_of check_tx_version = tx_version
type_of check_genesis = genesis
type_of (check_era e) = era
type_of (check_nonce n) = nonce
type_of check_weight = weight
type_of (charge_transaction_payment t) = transaction_payment

-- the whole tuple `extra`
unfoldable pub extra_tuple : {Era : Type 0} → Extra Era → List (Extension Era)
extra_tuple x =
    check_spec_version
    ∷ check_tx_version
    ∷ check_genesis
    ∷ check_era x.era
    ∷ check_nonce x.nonce
    ∷ check_weight
    ∷ charge_transaction_payment x.tip
    ∷ []

module _ {Call Era Payload PayloadError Public AccountId Signature Address : Type 0}
    (s : Signing Call Era Payload PayloadError Public AccountId Signature Address) where
  -- The extensions of a created transaction are those that the runtime checks, in its order; the era is
  -- of the block before, the nonce is the caller's, and no tip is paid.
  extra_tuple-signed_extra :
      (n block_number : ℕ)
      → (map type_of (extra_tuple (extra_of s n block_number)) ≡ signed_extra)
        × (extra_tuple (extra_of s n block_number)
            ≡ check_spec_version
              ∷ check_tx_version
              ∷ check_genesis
              ∷ check_era (s.mortal (period block_hash_count) (block_number - 1))
              ∷ check_nonce n
              ∷ check_weight
              ∷ charge_transaction_payment 0
              ∷ [])
  unfolding extra_tuple extra_of
  extra_tuple-signed_extra n block_number = (refl, refl)

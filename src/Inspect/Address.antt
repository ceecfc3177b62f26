-- ===== src/Inspect/Address.antt =====
-- node/inspect/src/lib.rs: `BlockAddress` and `ExtrinsicAddress`, and how they are read from the
-- command line. Hashes and block numbers are type parameters of the source, whose `FromStr` is an
-- argument here, as is `sp_core::bytes::from_hex`.
pub mod Parse
pub mod Grammar
use ipci_blockchain.Prelude.{ℕ, Bool, Option, none, some, List, [], ◌∷◌, ◌++◌, ◌||◌, ◌==◌}
use ipci_blockchain.Text.{
  Text, codes, Result, ok, err, ◌>>=◌, map_err, split, ParseIntError, empty, invalid_digit,
  overflow, parse_usize,
}

-- `BlockAddress`
pub data BlockAddress (Hash Number : Type 0) : Type 0 where
  hash : Hash → BlockAddress Hash Number
  number : Number → BlockAddress Hash Number
  bytes : List ℕ → BlockAddress Hash Number

-- `ExtrinsicAddress`
pub data ExtrinsicAddress (Hash Number : Type 0) : Type 0 where
  block : BlockAddress Hash Number → ℕ → ExtrinsicAddress Hash Number
  raw_bytes : List ℕ → ExtrinsicAddress Hash Number

-- `Display` of `ParseIntError`
abbrev pub show_error : ParseIntError → Text
show_error empty = codes "cannot parse integer from empty string"
show_error invalid_digit = codes "invalid digit found in string"
show_error overflow = codes "number too large to fit in target type"

-- the characters at which an extrinsic's address is split
abbrev pub is_separator : ℕ → Bool
is_separator c = c == b'.' || c == b':' || c == b' '

abbrev pub index_missing : Text
index_missing = codes "Extrinsic index missing: example \"5:0\""

-- The readers of hashes and block numbers, and the reader of `0x`-prefixed hexadecimal bytes, whose
-- error is given as it is displayed.
pub record Readers (Hash Number : Type 0) : Type 0 where
  pub read_hash : Text → Option Hash
  pub read_number : Text → Option Number
  pub from_hex : Text → Result Text (List ℕ)

module _ {Hash Number : Type 0} (r : Readers Hash Number) where
  -- `BlockAddress::from_str`
  unfoldable pub block_from_str : Text → Result Text (BlockAddress Hash Number)
  block_from_str s = elim (r.read_hash s) [
    | some h ↦ ok (hash h)
    | none ↦ elim (r.read_number s) [
      | some n ↦ ok (number n)
      | none ↦ elim (r.from_hex s) [
        | ok b ↦ ok (bytes b)
        | err e ↦ err (
            codes
              "Given string does not look like hash or number. It could not be parsed as bytes either: "
            ++ e)
      ]
    ]
  ]

  -- `ExtrinsicAddress::from_str` on the segments of the text, the part after the hexadecimal attempt;
  -- `none` is the panic of its `expect`
  unfoldable pub from_segments : List Text → Option (Result Text (ExtrinsicAddress Hash Number))
  from_segments [] = none
  from_segments (b ∷ []) = some (do a ← block_from_str b; err index_missing)
  from_segments (b ∷ i ∷ rest) = some (do
    a ← block_from_str b
    index ← map_err (λ e. codes "Invalid index format: " ++ show_error e) (parse_usize i)
    ok (block a index))

  -- `ExtrinsicAddress::from_str`
  unfoldable pub extrinsic_from_str : Text → Option (Result Text (ExtrinsicAddress Hash Number))
  unfolding from_segments
  extrinsic_from_str s = elim (r.from_hex s) [
    | ok b ↦ some (ok (raw_bytes b))
    | err e ↦ from_segments (split is_separator s)
  ]

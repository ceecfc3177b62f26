-- ===== src/Inspect/Inspector.antt =====
-- node/inspect/src/lib.rs: `Inspector`, which looks blocks and extrinsics up and prints them, and
-- `DebugPrinter`.
pub mod Lookup
pub mod Report
use ipci_blockchain.Prelude.{
  ◌⊎◌, inl, inr, ℕ, suc, ◌+◌, Option, none, some, List, [], ◌∷◌, ◌++◌, length, get_elem?,
}
use ipci_blockchain.Text.{Text, codes, Result, ok, err, ◌>>=◌, map_err, show_usize}
use ipci_blockchain.Inspect.Address.{
  BlockAddress, hash, number, bytes, ExtrinsicAddress, block, raw_bytes,
}

-- `Error`
pub data Error (CodecError ChainError : Type 0) : Type 0 where
  codec : CodecError → Error CodecError ChainError
  blockchain : ChainError → Error CodecError ChainError
  not_found : Text → Error CodecError ChainError

-- `Error::source`: the error of the framework behind it, if there is one
abbrev pub source :
    {CodecError ChainError : Type 0}
    → Error CodecError ChainError
    → Option (CodecError ⊎ ChainError)
source (codec e) = some (inl e)
source (blockchain e) = some (inr e)
source (not_found text) = none

-- `BlockId` of the framework
pub data BlockId (Hash Number : Type 0) : Type 0 where
  by_hash : Hash → BlockId Hash Number
  by_number : Number → BlockId Hash Number

-- What the inspector is generic in, or calls: the block type (`Block` of the framework) with its codec
-- and its `Debug` texts, and the access to the chain (`ChainAccess`).
pub record Client (Hash Number Header Extrinsic Block CodecError ChainError : Type 0) : Type 0 where
  pub new_block : Header → List Extrinsic → Block
  pub header_of : Block → Header
  pub extrinsics : Block → List Extrinsic
  pub decode_block : List ℕ → Result CodecError Block
  pub decode_extrinsic : List ℕ → Result CodecError Extrinsic
  pub block_body : BlockId Hash Number → Result ChainError (Option (List Extrinsic))
  pub header : BlockId Hash Number → Result ChainError (Option Header)
  pub debug_id : BlockId Hash Number → Text
  pub debug_block : Block → Text
  pub debug_header : Header → Text
  pub debug_extrinsic : Extrinsic → Text
  -- the bytes of an encoding, as `HexDisplay` shows them
  pub hex_block : Block → Text
  pub hex_extrinsic : Extrinsic → Text

-- `Option::ok_or_else`
abbrev ok_or_else {ℓ κ} : {E : Type ℓ} {A : Type κ} → Option A → E → Result E A
ok_or_else (some a) e = ok a
ok_or_else none e = err e

module _ {Hash Number Header Extrinsic Block CodecError ChainError : Type 0}
    (c : Client Hash Number Header Extrinsic Block CodecError ChainError) where
  -- the two arms of `get_block` that ask the chain, which are alike but for the block's id
  unfoldable pub look_up : BlockId Hash Number → Result (Error CodecError ChainError) Block
  look_up id = do
    let missing = codes "Could not find block " ++ c.debug_id id
    found_body ← map_err blockchain (c.block_body id)
    body ← ok_or_else found_body (not_found missing)
    found_header ← map_err blockchain (c.header id)
    head ← ok_or_else found_header (not_found missing)
    ok (c.new_block head body)

  -- `Inspector::get_block`
  unfoldable pub get_block : BlockAddress Hash Number → Result (Error CodecError ChainError) Block
  get_block (bytes b) = map_err codec (c.decode_block b)
  get_block (number n) = look_up (by_number n)
  get_block (hash h) = look_up (by_hash h)

  -- the extrinsic that `Inspector::extrinsic` prints
  unfoldable pub get_extrinsic :
      ExtrinsicAddress Hash Number → Result (Error CodecError ChainError) Extrinsic
  get_extrinsic (block a index) = do
    b ← get_block a
    ok_or_else (get_elem? (c.extrinsics b) index) (
        not_found (
          codes "Could not find extrinsic "
          ++ show_usize index
          ++ codes " in block "
          ++ c.debug_block b))
  get_extrinsic (raw_bytes b) = map_err codec (c.decode_extrinsic b)

  -- `DebugPrinter::fmt_extrinsic`; writing to a `String` does not fail
  unfoldable pub fmt_extrinsic : Extrinsic → Text
  fmt_extrinsic e =
      codes " "
      ++ c.debug_extrinsic e
      ++ codes "\n"
      ++ codes " Bytes: "
      ++ c.hex_extrinsic e
      ++ codes "\n"

  -- the loop of `DebugPrinter::fmt_block` over the extrinsics and their positions
  unfoldable pub fmt_extrinsics : ℕ → List Extrinsic → Text
  fmt_extrinsics idx [] = []
  fmt_extrinsics idx (e ∷ es) =
      codes "- " ++ show_usize idx ++ codes ":\n" ++ fmt_extrinsic e ++ fmt_extrinsics (idx + 1) es

  -- what `DebugPrinter::fmt_block` writes before the extrinsics
  abbrev pub fmt_head : Block → Text
  fmt_head b =
      codes "Header:\n"
      ++ c.debug_header (c.header_of b)
      ++ codes "\n"
      ++ codes "Block bytes: "
      ++ c.hex_block b
      ++ codes "\n"
      ++ codes "Extrinsics ("
      ++ show_usize (length (c.extrinsics b))
      ++ codes ")\n"

  -- `DebugPrinter::fmt_block`
  unfoldable pub fmt_block : Block → Text
  fmt_block b = fmt_head b ++ fmt_extrinsics 0 (c.extrinsics b)

  -- `Inspector::block` and `Inspector::extrinsic`, with the default printer
  unfoldable pub print_block : BlockAddress Hash Number → Result (Error CodecError ChainError) Text
  print_block a = do b ← get_block a; ok (fmt_block b)

  unfoldable pub print_extrinsic :
      ExtrinsicAddress Hash Number → Result (Error CodecError ChainError) Text
  print_extrinsic a = do e ← get_extrinsic a; ok (fmt_extrinsic e)

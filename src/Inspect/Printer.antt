-- ===== src/Inspect/Printer.antt =====
-- node/inspect/src/lib.rs: the trait `PrettyPrinter`, `DebugPrinter` as it writes to a formatter, and the
-- inspector with a printer. A formatter is the text written so far; an error of a printer, for which
-- `format!` panics, is `none`.
pub mod Default
use ipci_blockchain.Prelude.{ℕ, suc, ◌+◌, Option, none, some, List, [], ◌∷◌, ◌++◌, length}
use ipci_blockchain.Prelude.Options.{◌>>=◌}
use ipci_blockchain.Text.{Text, codes, Result, ok, err, show_usize}
use ipci_blockchain.Inspect.Address.{BlockAddress, ExtrinsicAddress}
use ipci_blockchain.Inspect.Inspector.{Client, Error, get_block, get_extrinsic}

-- `PrettyPrinter`
pub record PrettyPrinter (Block Extrinsic : Type 0) : Type 0 where
  pub fmt_block : Text → Block → Option Text
  pub fmt_extrinsic : Text → Extrinsic → Option Text

-- `Inspector`, with the access to the chain
pub record Inspector (Hash Number Header Extrinsic Block CodecError ChainError : Type 0)
    : Type 0 where
  pub printer : PrettyPrinter Block Extrinsic
  pub chain : Client Hash Number Header Extrinsic Block CodecError ChainError

-- `writeln!` to a formatter of a `String`, which does not fail
abbrev pub writeln : Text → Text → Option Text
writeln out line = some (out ++ (line ++ codes "\n"))

-- `format!` of a value that a printer writes, where `none` is the panic, behind the `?` of its lookup
unfoldable pub format :
    {E A : Type 0} → (Text → A → Option Text) → Result E A → Option (Result E Text)
format fmt (err e) = some (err e)
format fmt (ok a) = elim (fmt [] a) [ none ↦ none | some text ↦ some (ok text) ]

module _ {Hash Number Header Extrinsic Block CodecError ChainError : Type 0}
    (c : Client Hash Number Header Extrinsic Block CodecError ChainError) where
  -- `DebugPrinter::fmt_extrinsic`
  unfoldable pub write_extrinsic : Text → Extrinsic → Option Text
  write_extrinsic fmt extrinsic = do
    shown ← writeln fmt (codes " " ++ c.debug_extrinsic extrinsic)
    writeln shown (codes " Bytes: " ++ c.hex_extrinsic extrinsic)

  -- the loop of `DebugPrinter::fmt_block`
  unfoldable pub write_extrinsics : Text → ℕ → List Extrinsic → Option Text
  write_extrinsics fmt idx [] = some fmt
  write_extrinsics fmt idx (ex ∷ rest) = do
    numbered ← writeln fmt (codes "- " ++ show_usize idx ++ codes ":")
    shown ← write_extrinsic numbered ex
    write_extrinsics shown (idx + 1) rest

  -- `DebugPrinter::fmt_block`
  unfoldable pub write_block : Text → Block → Option Text
  write_block fmt b = do
    titled ← writeln fmt (codes "Header:")
    headed ← writeln titled (c.debug_header (c.header_of b))
    encoded ← writeln headed (codes "Block bytes: " ++ c.hex_block b)
    counted ←
        writeln encoded (codes "Extrinsics (" ++ show_usize (length (c.extrinsics b)) ++ codes ")")
    write_extrinsics counted 0 (c.extrinsics b)

  -- `DebugPrinter`
  abbrev pub debug_printer : PrettyPrinter Block Extrinsic
  debug_printer = record { fmt_block = write_block; fmt_extrinsic = write_extrinsic }

  -- `Inspector::with_printer`
  abbrev pub with_printer :
      PrettyPrinter Block Extrinsic
      → Inspector Hash Number Header Extrinsic Block CodecError ChainError
  with_printer p = record { printer = p; chain = c }

  -- `Inspector::new`, of the default printer type
  abbrev pub new : Inspector Hash Number Header Extrinsic Block CodecError ChainError
  new = with_printer debug_printer

module _ {Hash Number Header Extrinsic Block CodecError ChainError : Type 0}
    (i : Inspector Hash Number Header Extrinsic Block CodecError ChainError) where
  -- `Inspector::block`
  unfoldable pub inspect_block :
      BlockAddress Hash Number → Option (Result (Error CodecError ChainError) Text)
  inspect_block input = format i.printer.fmt_block (get_block i.chain input)

  -- `Inspector::extrinsic`
  unfoldable pub inspect_extrinsic :
      ExtrinsicAddress Hash Number → Option (Result (Error CodecError ChainError) Text)
  inspect_extrinsic input = format i.printer.fmt_extrinsic (get_extrinsic i.chain input)

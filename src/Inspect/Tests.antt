-- ===== src/Inspect/Tests.antt =====
-- The inspector on a small chain, and its theorems there.
mod Source
use ipci_blockchain.Prelude.{
  ℕ, ◌≡◌, ◌↔◌, refl, Option, none, some, List, [], ◌∷◌, ◌++◌, arith, ◌&&◌, ◌==◌, if◌then◌else◌,
}
use ipci_blockchain.Text.{
  Text, codes, Result, ok, err, ◌>>=◌, map_err, show_usize, split, parse_usize, decimal,
}
use ipci_blockchain.Inspect.Address.{
  ExtrinsicAddress, number, block, Readers, index_missing, block_from_str, extrinsic_from_str,
}
use ipci_blockchain.Inspect.Address.Parse.{extrinsic_from_str-show}
use ipci_blockchain.Inspect.Address.Grammar.{StandsFor, extrinsic_from_str_iff}
use ipci_blockchain.Inspect.Printer.{new, inspect_block, inspect_extrinsic}
use ipci_blockchain.Inspect.Printer.Default.{new-serves}
use ipci_blockchain.Inspect.Command.{extrinsic_cmd, input, display, run}
use ipci_blockchain.Inspect.Command.Printed.{run-on_chain}
use ipci_blockchain.Inspect.Inspector.{
  get_block, get_extrinsic, print_block, fmt_extrinsic, BlockId, by_hash, by_number, Client,
  look_up, print_extrinsic,
}
use ipci_blockchain.Inspect.Inspector.Report.{entry, Contains, print_block-Contains}
use ipci_blockchain.Inspect.Inspector.Lookup.{answer, print_extrinsic-on_chain}

-- No text is a hash here, numbers are read like `usize`, and texts that begin with `0x` are bytes.
abbrev decimal_number : Text → Option ℕ
decimal_number s = elim (parse_usize s) [ ok n ↦ some n | err e ↦ none ]

abbrev prefixed_hex : Text → Result Text (List ℕ)
prefixed_hex (c ∷ d ∷ s) = if c == b'0' && d == b'x' then ok s else err (codes "MissingPrefix")
prefixed_hex s = err (codes "MissingPrefix")

abbrev readers : Readers ℕ ℕ
readers = record { read_hash = λ s. none; read_number = decimal_number; from_hex = prefixed_hex }

-- a chain with one block, number 3, of the header 40 and the extrinsics 50 and 51
abbrev body_of : BlockId ℕ ℕ → Option (List ℕ)
body_of (by_hash h) = none
body_of (by_number n) = if n == 3 then some (50 ∷ 51 ∷ []) else none

abbrev header_of : BlockId ℕ ℕ → Option ℕ
header_of (by_hash h) = none
header_of (by_number n) = if n == 3 then some 40 else none

abbrev client : Client ℕ ℕ ℕ ℕ (ℕ × List ℕ) ℕ ℕ
client = record {
  new_block = λ h es. (h, es);
  header_of = λ b. b.0;
  extrinsics = λ b. b.1;
  decode_block = λ b. err 1;
  decode_extrinsic = λ b. err 2;
  block_body = λ id. ok (body_of id);
  header = λ id. ok (header_of id);
  debug_id = λ id. codes "id";
  debug_block = λ b. codes "block";
  debug_header = λ h. codes "header";
  debug_extrinsic = λ e. show_usize e;
  hex_block = λ b. [];
  hex_extrinsic = λ e. [];
}

print_block-Contains_example :
    (whole : Text) × (print_block client (number 3) ≡ ok whole)
    × Contains whole (entry 1 (fmt_extrinsic client 51))
unfolding print_extrinsic get_extrinsic get_block look_up
print_block-Contains_example =
    print_block-Contains client (number 3) 1 (fmt_extrinsic client 51) refl

extrinsic_from_str_iff_example :
    ((y : Result Text (ExtrinsicAddress ℕ ℕ)) × (extrinsic_from_str readers (codes "3:1") ≡ some y))
    × ((extrinsic_from_str readers (codes "3:1") ≡ some (ok (block (number 3) 1)))
        ↔ StandsFor readers (codes "3:1") (block (number 3) 1))
extrinsic_from_str_iff_example = extrinsic_from_str_iff readers (codes "3:1") (block (number 3) 1)

run-on_chain_example :
    run {ServiceError = ℕ} readers show_usize show_usize
      (ok client)
      (extrinsic_cmd (codes "3" ++ b':' ∷ show_usize 1))
    ≡ some (
        map_err
          (λ x. input (display show_usize show_usize x))
          (answer client 1 (40, 50 ∷ 51 ∷ []) (some 51)))
unfolding decimal block_from_str parse_usize
run-on_chain_example =
    run-on_chain readers show_usize show_usize client (codes "3") 3 b':' 1 (codes "MissingPrefix")
      (50 ∷ 51 ∷ []) 40 (refl, tt) refl (omega arith) refl refl (λ h es. refl) refl refl

-- ===== src/Inspect/Command/Printed.antt =====
-- What the inspect command prints (node/inspect/src/command.rs), from the text on the command line on.
use ipci_blockchain.Prelude.{
  ℕ, ◌^◌, ◌<◌, ◌≡◌, refl, true, Option, some, List, ◌∷◌, ◌++◌, get_elem?, ap,
}
use ipci_blockchain.Text.{Text, show_usize, Result, ok, err, ◌>>=◌, map_err}
use ipci_blockchain.Inspect.Address.{
  Readers, number, is_separator, block_from_str, extrinsic_from_str,
}
use ipci_blockchain.Inspect.Address.Parse.{
  Free, extrinsic_from_str-show_usize, extrinsic_from_str-IsTotal,
}
use ipci_blockchain.Inspect.Inspector.{Client, by_number}
use ipci_blockchain.Inspect.Inspector.Lookup.{answer, print_extrinsic-on_chain}
use ipci_blockchain.Inspect.Command.{
  InspectSubCmd, block_cmd, extrinsic_cmd, CliError, input, display, with_address, run, run_on,
}

with_address-IsTotal {ℓ} :
    {A : Type ℓ} {ServiceError : Type 0} (o : Option (Result Text A))
    (f : A → Result (CliError ServiceError) Text) (a : Result Text A)
    → o ≡ some a
    → (x : Result (CliError ServiceError) Text) × (with_address o f ≡ some x)
with_address-IsTotal o f a e = (map_err input a >>= f, ap (λ o'. with_address o' f) e)

module _ {Hash Number Header Extrinsic Block CodecError ChainError ServiceError : Type 0}
    (r : Readers Hash Number) (show_codec : CodecError → Text)
    (show_chain : ChainError → Text) where
  -- The inspect command returns or reports an error for every input: its readers do not panic.
  pub run-IsTotal :
      (made : Result ServiceError (Client Hash Number Header Extrinsic Block CodecError ChainError))
      (command : InspectSubCmd)
      → (x : Result (CliError ServiceError) Text) × (run r show_codec show_chain made command
          ≡ some x)
  unfolding run run_on
  run-IsTotal (err e) command = (_, refl)
  run-IsTotal (ok c) (block_cmd text) = (_, refl)
  run-IsTotal (ok c) (extrinsic_cmd text) =
      let (x, total) = extrinsic_from_str-IsTotal r text in
      with_address-IsTotal (extrinsic_from_str r text) _ x total

  -- For the address of a block by its number, a separator and the digits of a `usize`, the command prints
  -- the extrinsic at that index of the block, or reports that there is none. The block is on the chain,
  -- the whole text is not hexadecimal bytes, and the framework's blocks give back their extrinsics.
  pub run-on_chain :
      (c : Client Hash Number Header Extrinsic Block CodecError ChainError) (b : Text) (n : Number)
      (sep i : ℕ) (e : Text) (body : List Extrinsic) (head : Header)
      → Free is_separator b
      → is_separator sep ≡ true
      → i < 2 ^ 64
      → r.from_hex (b ++ sep ∷ show_usize i) ≡ err e
      → block_from_str r b ≡ ok (number n)
      → ((h : Header) (es : List Extrinsic) → c.extrinsics (c.new_block h es) ≡ es)
      → c.block_body (by_number n) ≡ ok (some body)
      → c.header (by_number n) ≡ ok (some head)
      → run {ServiceError = ServiceError} r show_codec show_chain
          (ok c)
          (extrinsic_cmd (b ++ sep ∷ show_usize i))
        ≡ some (
            map_err
              (λ x. input (display show_codec show_chain x))
              (answer c i (c.new_block head body) (get_elem? body i)))
  unfolding run run_on
  run-on_chain c b n sep i e body head free is_sep small no_hex reads whole hb hh = rw (
    extrinsic_from_str-show_usize r b sep i e free is_sep small no_hex,
    reads,
    print_extrinsic-on_chain c n i body head whole hb hh,
  )

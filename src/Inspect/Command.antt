-- ===== src/Inspect/Command.antt =====
-- node/inspect/src/command.rs and cli.rs: the inspect command, which reads an address, looks it up and
-- prints what it finds. What is printed is returned.
pub mod Printed
use ipci_blockchain.Prelude.{Option, none, some}
use ipci_blockchain.Text.{Text, Result, ok, err, ◌>>=◌, map_err}
use ipci_blockchain.Inspect.Address.{Readers, block_from_str, extrinsic_from_str}
use ipci_blockchain.Inspect.Inspector.{
  Client, Error, codec, blockchain, not_found, print_block, print_extrinsic,
}

-- `InspectSubCmd`
pub data InspectSubCmd : Type 0 where
  block_cmd : Text → InspectSubCmd
  extrinsic_cmd : Text → InspectSubCmd

-- `InspectCmd`, with the parameters that the framework reads, and its `CliConfiguration`
pub record InspectCmd (SharedParams ImportParams : Type 0) : Type 0 where
  pub command : InspectSubCmd
  pub shared_params : SharedParams
  pub import_params : ImportParams

module _ {SharedParams ImportParams : Type 0} where
  abbrev pub shared_params_of : InspectCmd SharedParams ImportParams → SharedParams
  shared_params_of cmd = cmd.shared_params

  abbrev pub import_params_of : InspectCmd SharedParams ImportParams → Option ImportParams
  import_params_of cmd = some cmd.import_params

-- The framework's `sc_cli::Error`: the client could not be made, or a message.
pub data CliError (ServiceError : Type 0) : Type 0 where
  service : ServiceError → CliError ServiceError
  input : Text → CliError ServiceError

-- `Display` of an `Error`, which is that of its contents
abbrev pub display :
    {CodecError ChainError : Type 0}
    → (CodecError → Text)
    → (ChainError → Text)
    → Error CodecError ChainError
    → Text
display show_codec show_chain (codec e) = show_codec e
display show_codec show_chain (blockchain e) = show_chain e
display show_codec show_chain (not_found message) = message

-- `none` is a panic of the reader
abbrev pub with_address {ℓ} :
    {A : Type ℓ} {ServiceError : Type 0}
    → Option (Result Text A)
    → (A → Result (CliError ServiceError) Text)
    → Option (Result (CliError ServiceError) Text)
with_address none f = none
with_address (some r) f = some (map_err input r >>= f)

module _ {Hash Number Header Extrinsic Block CodecError ChainError ServiceError : Type 0}
    (readers : Readers Hash Number) (show_codec : CodecError → Text)
    (show_chain : ChainError → Text) where
  -- the match of `InspectCmd::run`, with the client
  unfoldable pub run_on :
      Client Hash Number Header Extrinsic Block CodecError ChainError
      → InspectSubCmd
      → Option (Result (CliError ServiceError) Text)
  run_on client (block_cmd text) =
      with_address (some (block_from_str readers text))
        (λ a. map_err (λ e. input (display show_codec show_chain e)) (print_block client a))
  run_on client (extrinsic_cmd text) =
      with_address (extrinsic_from_str readers text)
        (λ a. map_err (λ e. input (display show_codec show_chain e)) (print_extrinsic client a))

  -- `InspectCmd::run`, of the client that `new_full_client` returns
  unfoldable pub run :
      Result ServiceError (Client Hash Number Header Extrinsic Block CodecError ChainError)
      → InspectSubCmd
      → Option (Result (CliError ServiceError) Text)
  run (ok client) command = run_on client command
  run (err e) command = some (err (service e))

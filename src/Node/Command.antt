-- ===== src/Node/Command.antt =====
-- node/cli/src/command.rs and node/cli/src/cli.rs: the subcommands, and what `run` does for each.
pub mod Completed
pub mod Network
pub mod Program
pub mod Handled
use ipci_blockchain.Prelude.{
  ℕ, Bool, true, false, Option, none, some, List, [], ◌∷◌, map, if◌then◌else◌, ◌==◌, ◌&&◌,
}
use ipci_blockchain.Text.{Text, codes, same_text, Result, ok, err, ◌>>=◌}
use ipci_blockchain.Node.Service.{
  Configuration, Role, light, new_partial, new_full_base, new_light_base,
}
use ipci_blockchain.Node.Service.Steps.{
  Failures, Step, Ended, completed, failed, panicked, outcome, continue,
}

-- `Subcommand`; the arguments of a command are the framework's
pub data Subcommand : Type 0 where
  key inspect benchmark verify vanity sign build_spec build_sync_spec check_block : Subcommand
  export_blocks export_state import_blocks purge_chain revert : Subcommand

-- `load_spec`, with the two built-in specifications and the reader of files
unfoldable pub load_spec :
    {ChainSpec : Type 0}
    → ChainSpec
    → ChainSpec
    → (Text → Result Text ChainSpec)
    → Text
    → Result Text ChainSpec
load_spec development_config ipci_config from_json_file id =
    let other = from_json_file id in
    if same_text id (codes "dev")
    then ok development_config
    else (if same_text id (codes "ipci")
        then ok ipci_config
        else (if same_text id (codes "") then ok ipci_config else other))

-- what `SubstrateCli` says of the program
abbrev pub impl_name : Text
impl_name = codes "airalab-ipci"

abbrev pub support_url : Text
support_url = codes "https://github.com/DAO-IPCI/IPCI-blockchain/issues/new"

abbrev pub copyright_start_year : ℕ
copyright_start_year = 2018

abbrev pub not_enabled : Text
not_enabled =
    codes
      "Benchmarking wasn't enabled when building the node. You can enable it with `--features runtime-benchmarks`."

-- What `run` does: it makes the framework's runner, a call to assemble a node, it runs the command
-- itself, or it runs the node until it exits.
pub data Act (Address : Type 0) : Type 0 where
  create_runner : Act Address
  assemble : Step Address → Act Address
  run_command : Subcommand → Act Address
  until_exit : Act Address

-- What decides how `run` goes: the configuration, which parts of it fail, and the error that a failure
-- to assemble a node, and a disabled command, become.
pub record Setting (Address ServiceError Error : Type 0) : Type 0 where
  pub config : Configuration Address
  pub runner_fails : Option Error
  pub fails : Failures Address ServiceError
  pub command_fails : Subcommand → Option Error
  pub exit_fails : Option Error
  pub service_error : ServiceError → Error
  pub message : Text → Error
  -- `cfg!(feature = "runtime-benchmarks")`
  pub runtime_benchmarks : Bool

abbrev pub ended_as :
    {ServiceError Error : Type 0} → (ServiceError → Error) → Ended ServiceError → Ended Error
ended_as f completed = completed
ended_as f (failed e) = failed (f e)
ended_as f panicked = panicked

module _ {Address ServiceError Error : Type 0} where
  -- the calls of an assembly, as part of `run`
  abbrev pub assembled :
      (ServiceError → Error)
      → Ended ServiceError × List (Step Address)
      → Ended Error × List (Act Address)
  assembled f (end, made) = (ended_as f end, map assemble made)

module _ {Address Error : Type 0} where
  infixr 10 ◌>>◌
  abbrev pub ◌>>◌ :
      Ended Error × List (Act Address)
      → Ended Error × List (Act Address)
      → Ended Error × List (Act Address)
  m >> n = continue m.0 m.1 n

  abbrev pub act : Option Error → Act Address → Ended Error × List (Act Address)
  act fails a = (outcome fails, a ∷ [])

module _ {Address ServiceError Error : Type 0} (s : Setting Address ServiceError Error) where
  abbrev pub runner : Ended Error × List (Act Address)
  runner = act s.runner_fails create_runner

  abbrev pub command : Subcommand → Ended Error × List (Act Address)
  command c = act (s.command_fails c) (run_command c)

  -- the node of `run_node_until_exit`
  abbrev pub node_of : Role Address → Ended Error × List (Act Address)
  node_of light = assembled s.service_error (new_light_base ServiceError s.config s.fails)
  node_of _ = assembled s.service_error (new_full_base ServiceError s.config s.fails)

  abbrev pub partial : Ended Error × List (Act Address)
  partial = assembled s.service_error (new_partial ServiceError s.fails)

  abbrev pub benchmark_if : Bool → Ended Error × List (Act Address)
  benchmark_if true = runner >> command benchmark
  benchmark_if false = (failed (s.message not_enabled), [])

  -- `run`, of the subcommand on the command line
  unfoldable pub run : Option Subcommand → Ended Error × List (Act Address)
  run none = do runner; node_of s.config.role; act s.exit_fails until_exit
  run (some inspect) = do runner; command inspect
  run (some benchmark) = benchmark_if s.runtime_benchmarks
  run (some key) = command key
  run (some sign) = command sign
  run (some verify) = command verify
  run (some vanity) = command vanity
  run (some build_spec) = do runner; command build_spec
  run (some build_sync_spec) = do
    runner
    assembled s.service_error (new_full_base ServiceError s.config s.fails)
    command build_sync_spec
  run (some check_block) = do runner; partial; command check_block
  run (some export_blocks) = do runner; partial; command export_blocks
  run (some export_state) = do runner; partial; command export_state
  run (some import_blocks) = do runner; partial; command import_blocks
  run (some purge_chain) = do runner; command purge_chain
  run (some revert) = do runner; partial; command revert

-- ===== src/Node/Command/Program.antt =====
-- The program in node/cli/bin/main.rs, the command line of node/cli/src/cli.rs, and what
-- `SubstrateCli` of node/cli/src/command.rs takes from the build.
use ipci_blockchain.Prelude.{Option, List}
use ipci_blockchain.Text.{Text}
use ipci_blockchain.Node.Service.Steps.{Ended}
use ipci_blockchain.Node.Command.{Subcommand, Act, Setting}
use ipci_blockchain.Node.Command
use ipci_blockchain.Runtime.Apis.{RuntimeVersion, version}

-- `Cli`, with the options of the framework's `RunCmd`
pub record Cli (RunCmd : Type 0) : Type 0 where
  pub subcommand : Option Subcommand
  pub run : RunCmd

-- the variables of the build's environment that the source names
pub record Environment : Type 0 where
  pub substrate_cli_impl_version : Text
  pub cargo_pkg_description : Text
  pub cargo_pkg_authors : Text

abbrev pub impl_version : Environment → Text
impl_version env = env.substrate_cli_impl_version

abbrev pub description : Environment → Text
description env = env.cargo_pkg_description

abbrev pub author : Environment → Text
author env = env.cargo_pkg_authors

-- `native_runtime_version`, of any specification
abbrev pub native_runtime_version :
    {ChainSpec Apis : Type 0} → Apis → ChainSpec → RuntimeVersion Apis
native_runtime_version runtime_api_versions spec = version runtime_api_versions

-- `main`, with the parser of the arguments, which ends the program itself on a wrong command line
unfoldable pub main :
    {Address ServiceError Error RunCmd Args : Type 0}
    → (Args → Cli RunCmd)
    → Setting Address ServiceError Error
    → Args
    → Ended Error × List (Act Address)
main from_args s args = Command.run s (from_args args).subcommand

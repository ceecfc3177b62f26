-- ===== src/Node/Command/Handled.antt =====
-- node/cli/src/command.rs: `run` again, with the handles that each subcommand is given of the node. The
-- configuration that the runner passes on is what it returns.
use ipci_blockchain.Prelude.{Bool, true, false, Option, none, some}
use ipci_blockchain.Text.{Text, Result}
use ipci_blockchain.Node.Service.{Configuration, Role, authority, sentry, full, light}
use ipci_blockchain.Node.Handles.{Handles}
use ipci_blockchain.Node.Handles.Effects.{M, ◌>>=◌, try, fail, map_error}
use ipci_blockchain.Node.Handles.Framework.{Framework, FullFramework, LightFramework}
use ipci_blockchain.Node.Handles.Partial.{RpcServer, new_partial}
use ipci_blockchain.Node.Handles.Full.{new_full_base, new_full}
use ipci_blockchain.Node.Handles.Light.{new_light}
use ipci_blockchain.Node.Command.{
  Subcommand, key, inspect, benchmark, verify, vanity, sign, build_spec, build_sync_spec,
  check_block, export_blocks, export_state, import_blocks, purge_chain, revert, not_enabled,
}

-- What the framework's command line provides: the runner, with the fields of the configuration that only
-- commands read, what the commands do, and how the runner drives a future or a node. A future does
-- nothing until it is driven.
pub record CliFramework (H : Handles) (Error : Type 0) : Type 1 where
  pub ChainSpec : Type 0
  pub NetworkConfig : Type 0
  pub Database : Type 0
  pub Future : Type 0
  pub chain_spec : Configuration H.Address → ChainSpec
  pub network : Configuration H.Address → NetworkConfig
  pub database : Configuration H.Address → Database
  pub create_runner : Option Subcommand → H.State → Result Error (Configuration H.Address) × H.State
  pub run_key : H.State → Result Error (Unit {0}) × H.State
  pub run_sign : H.State → Result Error (Unit {0}) × H.State
  pub run_verify : H.State → Result Error (Unit {0}) × H.State
  pub run_vanity : H.State → Result Error (Unit {0}) × H.State
  pub run_inspect : Configuration H.Address → H.State → Result Error (Unit {0}) × H.State
  pub run_benchmark : Configuration H.Address → H.State → Result Error (Unit {0}) × H.State
  pub run_build_spec : ChainSpec → NetworkConfig → H.State → Result Error (Unit {0}) × H.State
  pub run_purge_chain : Database → H.State → Result Error (Unit {0}) × H.State
  pub build_sync_spec_with : ChainSpec → NetworkConfig → H.Client → H.NetworkStatusSinks → Future
  pub check_block_with : H.Client → H.ImportQueue → Future
  pub export_blocks_with : H.Client → Database → Future
  pub export_state_with : H.Client → ChainSpec → Future
  pub import_blocks_with : H.Client → H.ImportQueue → Future
  pub revert_with : H.Client → H.Backend → Future
  -- `async_run` drives the future of a command, `run_node_until_exit` a node
  pub async_run : Future × H.TaskManager → H.State → Result Error (Unit {0}) × H.State
  pub until_exit : H.TaskManager → H.State → Result Error (Unit {0}) × H.State
  -- the conversions of errors, and `cfg!(feature = "runtime-benchmarks")`
  pub service_error : H.Error → Error
  pub message : Text → Error
  pub runtime_benchmarks : Bool

module _ {H : Handles} {Error : Type 0} (w : Framework H) (f : FullFramework H)
    (l : LightFramework H) (rpc : RpcServer H) (c : CliFramework H Error) where
  -- the closure that is passed to `run_node_until_exit`
  unfoldable pub node_of : Configuration H.Address → Role H.Address → M H.State Error H.TaskManager
  node_of config light = map_error c.service_error (new_light w l rpc config)
  node_of config full = map_error c.service_error (new_full w f rpc config)
  node_of config sentry = map_error c.service_error (new_full w f rpc config)
  node_of config (authority sentry_nodes) = map_error c.service_error (new_full w f rpc config)

  unfoldable pub benchmark_if : Bool → M H.State Error (Unit {0})
  benchmark_if true = do
    config ← try (c.create_runner (some benchmark))
    try (c.run_benchmark config)
  benchmark_if false = fail (c.message not_enabled)

  -- `run`
  unfoldable pub run : Option Subcommand → M H.State Error (Unit {0})
  run none = do
    config ← try (c.create_runner none)
    task_manager ← node_of config config.role
    try (c.until_exit task_manager)
  run (some inspect) = do config ← try (c.create_runner (some inspect)); try (c.run_inspect config)
  run (some benchmark) = benchmark_if c.runtime_benchmarks
  run (some key) = try c.run_key
  run (some sign) = try c.run_sign
  run (some verify) = try c.run_verify
  run (some vanity) = try c.run_vanity
  run (some build_spec) = do
    config ← try (c.create_runner (some build_spec))
    try (c.run_build_spec (c.chain_spec config) (c.network config))
  run (some build_sync_spec) = do
    config ← try (c.create_runner (some build_sync_spec))
    let chain_spec = c.chain_spec config
    let network_config = c.network config
    n ←
        map_error c.service_error
          (new_full_base w f rpc config (λ block_import babe_link s. (tt, s)))
    try (
        c.async_run (
          c.build_sync_spec_with chain_spec network_config n.client n.network_status_sinks,
          n.task_manager,
        ))
  run (some check_block) = do
    config ← try (c.create_runner (some check_block))
    p ← map_error c.service_error (new_partial w f rpc config)
    try (c.async_run (c.check_block_with p.client p.import_queue, p.task_manager))
  run (some export_blocks) = do
    config ← try (c.create_runner (some export_blocks))
    p ← map_error c.service_error (new_partial w f rpc config)
    try (c.async_run (c.export_blocks_with p.client (c.database config), p.task_manager))
  run (some export_state) = do
    config ← try (c.create_runner (some export_state))
    p ← map_error c.service_error (new_partial w f rpc config)
    try (c.async_run (c.export_state_with p.client (c.chain_spec config), p.task_manager))
  run (some import_blocks) = do
    config ← try (c.create_runner (some import_blocks))
    p ← map_error c.service_error (new_partial w f rpc config)
    try (c.async_run (c.import_blocks_with p.client p.import_queue, p.task_manager))
  run (some purge_chain) = do
    config ← try (c.create_runner (some purge_chain))
    try (c.run_purge_chain (c.database config))
  run (some revert) = do
    config ← try (c.create_runner (some revert))
    p ← map_error c.service_error (new_partial w f rpc config)
    try (c.async_run (c.revert_with p.client p.backend, p.task_manager))

-- ===== src/Lib.antt =====
-- The IPCI blockchain node: a Substrate runtime with a pallet for logs of accounts (the datalog), and
-- the node that runs it.
--
-- Parts and files:
--   Datalog            pallets/datalog/src/lib.rs and default_weight.rs. RingBuffer has the index of
--                      an account's ring buffer, its `add` and its iterator; Storage and Pallet.Laws
--                      are the framework's storage maps, a parameter with laws; Pallet has the calls
--                      `record` (here `record_data`) and `erase`, the query `data` (here `data_of`)
--                      and the dispatch of a call, on the state of the chain, with the events that
--                      are deposited; Weight the declared weights, and Weight.Accesses the calls on
--                      storage maps that count. Pallet.History, Pallet.Bounded, Pallet.Isolation and
--                      Pallet.Authentic are about any sequence of calls. Pallet.Refines compares the
--                      pallet with a machine on the logs of all accounts, and Pallet.Runs the replies
--                      to sequences of calls and queries, each call at the time that the clock of
--                      Pallet.Timestamp was set to; Pallet.Old is about the map of the previous
--                      version; Tests.Source has the pallet's own tests, each as what it asserts and
--                      the theorem that it passes.
--   Runtime            node/runtime/src: Constants is constants.rs, Votes is `CurrencyToVoteHandler`
--                      of impls.rs and Author its `Author`. The others are lib.rs: Parameters the
--                      constants of its `parameter_types!` (Parameters.Logs is
--                      about the datalog pallet under them, Parameters.Curve has those that the
--                      framework computes, Parameters.Typed compares them with their types), Fees
--                      `WeightToFee`, Pallets the table of `construct_runtime!` (Pallets.Traits has
--                      the associated types that the runtime gives each pallet), Transactions
--                      `create_transaction` (Transactions.Extensions has the signed extensions),
--                      Version the code and the version for the native node, Apis the runtime APIs
--                      (those that only pass their arguments on are in Apis.Delegated), Benchmarks
--                      `dispatch_benchmark`.
--   Inspect            node/inspect/src/lib.rs: Address reads the addresses of blocks and extrinsics
--                      (Address.Grammar says which texts are addresses), Inspector looks them up
--                      through the client and says what is printed (Inspector.Report is about the
--                      text of a block), Printer has the printers, which write to a formatter and may
--                      fail, and the inspector with one of them; Command is command.rs and cli.rs,
--                      the command that does both.
--   Node               node/cli/src: Service is service.rs, as the calls that assemble a full or a
--                      light node (Service.Steps has the calls and how `?` chains them,
--                      Service.Execute and Service.Plan describe the same as a list that stops at the
--                      first failure, and Service.Behaviour says which services a node has started).
--                      Handles is service.rs again, with the handles that pass between the calls of
--                      the framework, a record of functions (Handles.Framework); Handles.Calls has a
--                      process that keeps these calls with what each was given, Handles.Wired says
--                      which handles belong to one node and Handles.Starts which calls start its
--                      services, and Handles.Kept, Handles.Parts and Handles.OneNode are about the
--                      calls that a full node makes. ChainSpec is chain_spec.rs, with the genesis
--                      against the parameters of the runtime (ChainSpec.Repeats is about that of the
--                      development chain); Command is command.rs with the subcommands of cli.rs
--                      (Command.Program has the program of bin/main.rs, and Command.Handled `run`
--                      with the handles that the subcommands are given), and Browser is browser.rs,
--                      both on top of Service. Rpc is node/rpc/src/lib.rs, and Rpc.Builder what
--                      service.rs makes its handlers of. Build is build.rs, with
--                      node/runtime/build.rs, and Primitives the machine integers of
--                      node/primitives/src/lib.rs.
--   Text, Prelude      texts as lists of code points with the standard library's functions on them,
--                      and the shared names, tests, options and list lemmas.
--
-- The files named Tests hold the theorems at concrete inputs, and tests of the definitions, but for
-- Prelude.Tests, which has the Boolean tests on numbers.
--
-- Numbers are natural numbers; the `u64` and `u128` operations of the source are written out with their
-- wrap-around or saturation. The only loop of the source that is not structural is the one over the ring
-- buffer's iterator: it takes fuel, and `none` stands for a loop that has not ended. A valid index needs no
-- more rounds than the window has slots. Two loops of the standard library have a fixed number of
-- rounds: 20 decimal digits for a `usize`, and the 32 powers of two that a `u32` holds.
--
-- Not modelled: what is not in this repository (the Substrate framework, of which storage maps, origin
-- checks, the clock, codecs, chain access, the executive, RPC extensions and benchmarks are
-- parameters), the type synonyms of node/primitives that name types of the framework, its keys for
-- reports, and the macro call of node/executor.
pub mod Prelude
pub mod Text
pub mod Datalog
pub mod Runtime
pub mod Inspect
pub mod Node

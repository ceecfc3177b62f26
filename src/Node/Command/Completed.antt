-- ===== src/Node/Command/Completed.antt =====
-- When a run of the command line succeeds (node/cli/src/command.rs).
use ipci_blockchain.Prelude.{Bool, true, false, Option, none, some, List, ◌≡◌, ◌↔◌, refl}
use ipci_blockchain.Node.Service.{
  Role, authority, full, light, sentry, new_partial, new_full_base, new_light_base,
}
use ipci_blockchain.Node.Service.Steps.{Ended, completed, failed, panicked, outcome}
use ipci_blockchain.Node.Service.Plan.{partial_plan, full_plan, light_plan}
use ipci_blockchain.Node.Service.Completed.{
  Succeeds, new_partial-completed_iff, new_full_base-completed_iff, new_light_base-completed_iff,
}
use ipci_blockchain.Node.Command.{
  Act, Setting, Subcommand, key, inspect, benchmark, verify, vanity, sign, build_spec,
  build_sync_spec, check_block, export_blocks, export_state, import_blocks, purge_chain, revert,
  run, runner, command, partial, node_of, benchmark_if, assembled, ended_as, act, ◌>>◌,
}

outcome-completed_iff : {E : Type 0} (o : Option E) → (outcome o ≡ completed) ↔ (o ≡ none)
outcome-completed_iff none = (λ h. refl, λ h. refl)
outcome-completed_iff (some e) = (λ h. cc h, λ h. cc h)

ended_as-completed_iff :
    {E F : Type 0} (f : E → F) (end : Ended E) → (ended_as f end ≡ completed) ↔ (end ≡ completed)
ended_as-completed_iff f completed = (λ h. refl, λ h. refl)
ended_as-completed_iff f (failed e) = (λ h. cc h, λ h. cc h)
ended_as-completed_iff f panicked = (λ h. cc h, λ h. cc h)

trans_iff : {P Q R : Type 0} → P ↔ Q → Q ↔ R → P ↔ R
trans_iff f g = (λ p. g.0 (f.0 p), λ r. f.1 (g.1 r))

-- Two parts complete exactly when each does.
module _ {Address Error P Q : Type 0} where
  both_iff :
      (m n : Ended Error × List (Act Address))
      → (m.0 ≡ completed) ↔ P
      → (n.0 ≡ completed) ↔ Q
      → ((m >> n).0 ≡ completed) ↔ (P × Q)
  both_iff (completed, made) n hm hn = (λ h. (hm.0 refl, hn.0 h), λ (p, q). hn.1 q)
  both_iff (failed e, made) n hm hn = (λ h. cc h, λ (p, q). let c = hm.1 p in cc c)
  both_iff (panicked, made) n hm hn = (λ h. cc h, λ (p, q). let c = hm.1 p in cc c)

module _ {Address ServiceError Error : Type 0} (s : Setting Address ServiceError Error) where
  -- the node that a role runs
  abbrev pub Assembles : Role Address → Type 0
  Assembles light = Succeeds s.fails (light_plan s.config)
  Assembles _ = Succeeds s.fails (full_plan s.config)

  -- what a subcommand needs before it does its work
  abbrev pub Ready : Subcommand → Type 0
  Ready key = Unit
  Ready sign = Unit
  Ready verify = Unit
  Ready vanity = Unit
  Ready inspect = s.runner_fails ≡ none
  Ready build_spec = s.runner_fails ≡ none
  Ready purge_chain = s.runner_fails ≡ none
  Ready benchmark = (s.runtime_benchmarks ≡ true) × (s.runner_fails ≡ none)
  Ready build_sync_spec = (s.runner_fails ≡ none) × Succeeds s.fails (full_plan s.config)
  Ready _ = (s.runner_fails ≡ none) × Succeeds s.fails partial_plan

  -- what has succeeded when `run` does
  abbrev pub Succeeded : Option Subcommand → Type 0
  Succeeded none = (s.runner_fails ≡ none) × (Assembles s.config.role × (s.exit_fails ≡ none))
  Succeeded (some c) = Ready c × (s.command_fails c ≡ none)

  abbrev Completes : Ended Error × List (Act Address) → Type 0 → Type 0
  Completes m P = (m.0 ≡ completed) ↔ P

  runner_iff : Completes (runner s) (s.runner_fails ≡ none)
  runner_iff = outcome-completed_iff s.runner_fails

  command_iff : (c : Subcommand) → Completes (command s c) (s.command_fails c ≡ none)
  command_iff c = outcome-completed_iff (s.command_fails c)

  alone_iff : (c : Subcommand) → Completes (command s c) (Unit × (s.command_fails c ≡ none))
  alone_iff c = trans_iff (command_iff c) (λ h. (tt, h), λ h. h.1)

  partial_iff : Completes (partial s) (Succeeds s.fails partial_plan)
  partial_iff =
      trans_iff (ended_as-completed_iff s.service_error (new_partial ServiceError s.fails).0)
        (new_partial-completed_iff s.fails)

  full_iff :
      Completes
        (assembled s.service_error (new_full_base ServiceError s.config s.fails))
        (Succeeds s.fails (full_plan s.config))
  full_iff =
      trans_iff
        (ended_as-completed_iff s.service_error (new_full_base ServiceError s.config s.fails).0)
        (new_full_base-completed_iff s.config s.fails)

  node_iff : (role : Role Address) → Completes (node_of s role) (Assembles role)
  node_iff light =
      trans_iff
        (ended_as-completed_iff s.service_error (new_light_base ServiceError s.config s.fails).0)
        (new_light_base-completed_iff s.config s.fails)
  node_iff full = full_iff
  node_iff sentry = full_iff
  node_iff (authority sentries) = full_iff

  runs_iff :
      (c : Subcommand)
      → Completes (runner s >> command s c) ((s.runner_fails ≡ none) × (s.command_fails c ≡ none))
  runs_iff c = both_iff (runner s) (command s c) runner_iff (command_iff c)

  -- a command behind the runner and a part of the node
  behind_iff :
      {P : Type 0} (m : Ended Error × List (Act Address)) (c : Subcommand)
      → Completes m P
      → Completes
          (runner s >> (m >> command s c))
          (((s.runner_fails ≡ none) × P) × (s.command_fails c ≡ none))
  behind_iff m c h =
      trans_iff
        (both_iff (runner s) (m >> command s c) runner_iff
          (both_iff m (command s c) h (command_iff c)))
        (λ (r, w). ((r, w.0), w.1), λ (w, ran). (w.0, (w.1, ran)))

  benchmark_iff :
      (b : Bool)
      → Completes
          (benchmark_if s b)
          (((b ≡ true) × (s.runner_fails ≡ none)) × (s.command_fails benchmark ≡ none))
  benchmark_iff true = trans_iff (runs_iff benchmark) (λ (r, c). ((refl, r), c), λ (w, c). (w.1, c))
  benchmark_iff false = (λ h. cc h, λ (w, c). let e = w.0 in cc e)

  -- `run` returns without an error exactly when neither the command on the command line fails nor what
  -- it needs: for the commands that work on a chain the runner, for those that work on a database also
  -- the parts of a node, for `build_sync_spec` the assembly of a full node, and for `benchmark` that
  -- the feature is enabled. Without a command it is when neither the runner, nor the assembly of the
  -- node of the role, nor its exit fails.
  pub run-completed_iff : (c : Option Subcommand) → ((run s c).0 ≡ completed) ↔ Succeeded c
  unfolding run
  run-completed_iff none =
      both_iff (runner s) (node_of s s.config.role >> act s.exit_fails Act.until_exit) runner_iff (
        both_iff (node_of s s.config.role) (act s.exit_fails Act.until_exit)
          (node_iff s.config.role) (outcome-completed_iff s.exit_fails))
  run-completed_iff (some key) = alone_iff key
  run-completed_iff (some sign) = alone_iff sign
  run-completed_iff (some verify) = alone_iff verify
  run-completed_iff (some vanity) = alone_iff vanity
  run-completed_iff (some inspect) = runs_iff inspect
  run-completed_iff (some build_spec) = runs_iff build_spec
  run-completed_iff (some purge_chain) = runs_iff purge_chain
  run-completed_iff (some benchmark) = benchmark_iff s.runtime_benchmarks
  run-completed_iff (some build_sync_spec) =
      behind_iff (assembled s.service_error (new_full_base ServiceError s.config s.fails))
        build_sync_spec full_iff
  run-completed_iff (some check_block) = behind_iff (partial s) check_block partial_iff
  run-completed_iff (some export_blocks) = behind_iff (partial s) export_blocks partial_iff
  run-completed_iff (some export_state) = behind_iff (partial s) export_state partial_iff
  run-completed_iff (some import_blocks) = behind_iff (partial s) import_blocks partial_iff
  run-completed_iff (some revert) = behind_iff (partial s) revert partial_iff

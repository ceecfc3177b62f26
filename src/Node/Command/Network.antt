-- ===== src/Node/Command/Network.antt =====
-- Which subcommands start the network (node/cli/src/command.rs).
use ipci_blockchain.Prelude.{
  Bool, true, false, ◌||◌, some, List, [], ◌∷◌, map, ◌≡◌, refl, ap, ap₂, ◌∙◌, subst, sym,
}
use ipci_blockchain.Node.Service.{new_partial}
use ipci_blockchain.Node.Service.Steps.{Step, Ended, completed, failed, panicked}
use ipci_blockchain.Node.Service.Plan.{partial_plan, new_partial-Follows}
use ipci_blockchain.Node.Service.Started.{any-append, is_start_network, any, execute-silent}
use ipci_blockchain.Node.Command.{
  Act, assemble, Setting, Subcommand, key, inspect, benchmark, verify, vanity, sign, build_spec,
  build_sync_spec, check_block, export_blocks, export_state, import_blocks, purge_chain, revert,
  run, runner, command, partial, benchmark_if, ◌>>◌,
}

abbrev pub starts_network : {Address : Type 0} → Act Address → Bool
starts_network (assemble s) = is_start_network s
starts_network _ = false

any-assemble :
    {Address : Type 0} (xs : List (Step Address))
    → any starts_network (map assemble xs) ≡ any is_start_network xs
any-assemble [] = refl
any-assemble (x ∷ xs) = ap (λ b. is_start_network x || b) (any-assemble xs)

abbrev Offline : {Address Error : Type 0} → Ended Error × List (Act Address) → Type 0
Offline r = any starts_network (r.1) ≡ false

continue-Offline :
    {Address Error : Type 0} (m n : Ended Error × List (Act Address))
    → Offline m
    → Offline n
    → Offline (m >> n)
continue-Offline (completed, made) n hm hn =
    any-append starts_network made (n.1) ∙ ap₂ (λ b c. b || c) hm hn
continue-Offline (failed e, made) n hm hn = hm
continue-Offline (panicked, made) n hm hn = hm

module _ {Address ServiceError Error : Type 0} (s : Setting Address ServiceError Error) where
  partial-Offline : Offline (partial s)
  partial-Offline =
      any-assemble (new_partial ServiceError s.fails).1
      ∙ subst (λ r. any is_start_network (r.1) ≡ false) (sym (new_partial-Follows.follows s.fails))
          (execute-silent s.fails partial_plan refl)

  -- a command that needs the runner, and one that needs the parts of a node as well
  runs-Offline : (c : Subcommand) → Offline (runner s >> command s c)
  runs-Offline c = continue-Offline (runner s) (command s c) refl refl

  works-Offline : (c : Subcommand) → Offline (runner s >> (partial s >> command s c))
  works-Offline c =
      continue-Offline (runner s) (partial s >> command s c) refl
        (continue-Offline (partial s) (command s c) partial-Offline refl)

  benchmark-Offline : (b : Bool) → Offline (benchmark_if s b)
  benchmark-Offline true = runs-Offline benchmark
  benchmark-Offline false = refl

  -- the only subcommand that works on a running node
  abbrev pub needs_network : Subcommand → Bool
  needs_network build_sync_spec = true
  needs_network _ = false

  -- No subcommand but `build_sync_spec` starts the network, whatever fails.
  pub run_stays_offline :
      (c : Subcommand) → needs_network c ≡ false → any starts_network (run s (some c)).1 ≡ false
  unfolding run
  run_stays_offline inspect h = runs-Offline inspect
  run_stays_offline benchmark h = benchmark-Offline s.runtime_benchmarks
  run_stays_offline key h = refl
  run_stays_offline sign h = refl
  run_stays_offline verify h = refl
  run_stays_offline vanity h = refl
  run_stays_offline build_spec h = runs-Offline build_spec
  run_stays_offline build_sync_spec h = cc h
  run_stays_offline check_block h = works-Offline check_block
  run_stays_offline export_blocks h = works-Offline export_blocks
  run_stays_offline export_state h = works-Offline export_state
  run_stays_offline import_blocks h = works-Offline import_blocks
  run_stays_offline purge_chain h = runs-Offline purge_chain
  run_stays_offline revert h = works-Offline revert

-- ===== src/Node/Tests.antt =====
-- A node, a genesis and the command line at concrete values, and the theorems about them there.
mod Entries
mod Handles
mod Kept
use mathlib.Core.List.{Nodup, mem-cons_self, mem-cons_of_mem}
use ipci_blockchain.Prelude.{
  ℕ, ◌≡◌, ◌↔◌, refl, Bool, true, false, none, some, List, [], ◌∷◌, ◌++◌, map, arith,
}
use ipci_blockchain.Text.{Text, codes, ok}
use ipci_blockchain.Node.Service.{
  Configuration, Role, sentry, authority, new_full_base, new_light_base, new_partial,
  start_authoring, start_discovery, start_grandpa, discovers, discovery_role, grandpa_config,
}
use ipci_blockchain.Node.Service.Steps.{Failures, Step, completed, failed}
use ipci_blockchain.Node.Service.Execute.{execute}
use ipci_blockchain.Node.Service.Plan.{
  full_plan, light_plan, new_full_base-plan, new_light_base-plan,
}
use ipci_blockchain.Node.Service.Started.{
  any, is_start_network, is_completed, new_full_base-network,
}
use ipci_blockchain.Node.ChainSpec.{
  Keys, Authority, FromString, GenesisConfig, authority_keys_from_seed, default_seeds,
  endowed_accounts, testnet_genesis, development_config_genesis, genesis,
}
use ipci_blockchain.Node.ChainSpec.Genesis.{IsConsistent, testnet_genesis-IsConsistent}
use ipci_blockchain.Node.ChainSpec.Once.{holders}
use ipci_blockchain.Node.ChainSpec.Repeats.{development_config_genesis-repeats}
use ipci_blockchain.Node.Command.{Setting, benchmark, revert, load_spec, run}
use ipci_blockchain.Node.Command.Completed.{Succeeded, run-completed_iff}
use ipci_blockchain.Node.Command.Network.{starts_network, run_stays_offline}

abbrev role_is_authority : Role ℕ → Bool
role_is_authority (authority sentry_nodes) = true
role_is_authority _ = false

abbrev role_is_network_authority : Role ℕ → Bool
role_is_network_authority (authority sentry_nodes) = true
role_is_network_authority sentry = true
role_is_network_authority _ = false

-- an authority with one sentry, at the address 9
abbrev validator : Configuration ℕ
validator = record {
  role = authority (9 ∷ []);
  is_authority = role_is_authority;
  is_network_authority = role_is_network_authority;
  force_authoring = false;
  disable_grandpa = false;
  offchain_worker_enabled = true;
  node_name = codes "alice";
}

-- no call fails, or the start of the voter
abbrev nothing_fails : Failures ℕ ℕ
nothing_fails s = none

abbrev voter_fails : Failures ℕ ℕ
voter_fails (Step.run_grandpa_voter config) = some 1
voter_fails _ = none

validator_starts : (new_full_base ℕ validator nothing_fails).0 ≡ completed
unfolding new_full_base new_partial start_authoring start_discovery start_grandpa discovers
    discovery_role
validator_starts = refl

validator_stops : (new_full_base ℕ validator voter_fails).0 ≡ failed 1
unfolding new_full_base new_partial start_authoring start_discovery start_grandpa discovers
    discovery_role grandpa_config
validator_stops = refl

new_full_base-network_example :
    any is_start_network (new_full_base ℕ validator voter_fails).1
    ≡ is_completed (new_full_base ℕ validator voter_fails).0
new_full_base-network_example = new_full_base-network validator voter_fails

-- keys and accounts that are the strings that they come from
abbrev texts : Keys
texts = record {
  AccountId = Text;
  GrandpaId = Text;
  BabeId = Text;
  ImOnlineId = Text;
  AuthorityDiscoveryId = Text;
}

abbrev as_text : FromString texts
as_text = record {
  account = λ t. some t;
  grandpa_key = λ t. some t;
  babe_key = λ t. some t;
  im_online_key = λ t. some t;
  authority_discovery_key = λ t. some t;
}

abbrev alice : Authority texts
alice = record {
  stash = codes "//Alice//stash";
  controller = codes "//Alice";
  grandpa_id = codes "//Alice";
  babe_id = codes "//Alice";
  im_online_id = codes "//Alice";
  authority_discovery_id = codes "//Alice";
}

abbrev endowed : List Text
endowed = map (λ s. codes "//" ++ s) default_seeds

alice_from_seed : authority_keys_from_seed as_text (codes "Alice") ≡ some alice
unfolding authority_keys_from_seed
alice_from_seed = refl

development :
    development_config_genesis as_text [] ≡ some (genesis [] (alice ∷ []) (codes "//Alice") endowed)
unfolding development_config_genesis testnet_genesis authority_keys_from_seed endowed_accounts
development = refl

testnet_genesis-IsConsistent_example :
    (g : GenesisConfig texts) × (testnet_genesis as_text [] (alice ∷ []) (codes "//Alice") none
      ≡ some g)
    × IsConsistent endowed g
unfolding endowed_accounts
testnet_genesis-IsConsistent_example =
    testnet_genesis-IsConsistent as_text [] (alice ∷ []) (codes "//Alice") none endowed refl
      (omega arith)

development_config_genesis-repeats_example :
    ¬ Nodup (holders {k = texts} (genesis [] (alice ∷ []) (codes "//Alice") endowed))
development_config_genesis-repeats_example =
    development_config_genesis-repeats as_text []
      (genesis [] (alice ∷ []) (codes "//Alice") endowed) development

abbrev setting : Setting ℕ ℕ ℕ
setting = record {
  config = validator;
  runner_fails = none;
  fails = voter_fails;
  command_fails = λ c. none;
  exit_fails = none;
  service_error = λ e. e;
  message = λ t. 0;
  runtime_benchmarks = false;
}

run_stays_offline_example : any starts_network (run setting (some revert)).1 ≡ false
run_stays_offline_example = run_stays_offline setting revert refl

run-completed_iff_example :
    ((run setting (some revert)).0 ≡ completed) ↔ Succeeded setting (some revert)
run-completed_iff_example = run-completed_iff setting (some revert)

-- The voter does not fail a command that starts none; `benchmark` is refused without the feature.
revert_completes : (run setting (some revert)).0 ≡ completed
unfolding run new_partial
revert_completes = refl

benchmark_refused : (run setting (some benchmark)).0 ≡ failed 0
unfolding run
benchmark_refused = refl

-- the specification of the name `dev`, and of a file
reads_dev : load_spec {ChainSpec = ℕ} 1 2 (λ path. ok 3) (codes "dev") ≡ ok 1
unfolding load_spec
reads_dev = refl

reads_default : load_spec {ChainSpec = ℕ} 1 2 (λ path. ok 3) [] ≡ ok 2
unfolding load_spec
reads_default = refl

reads_file : load_spec {ChainSpec = ℕ} 1 2 (λ path. ok 3) (codes "dev.json") ≡ ok 3
unfolding load_spec
reads_file = refl

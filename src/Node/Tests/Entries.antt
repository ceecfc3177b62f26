-- ===== src/Node/Tests/Entries.antt =====
-- The theorems about the RPC handlers and the browser's client at concrete values.
use ipci_blockchain.Prelude.{
  ℕ, ◌==◌, ◌≡◌, ◌↔◌, refl, sym, ap, ◌∙◌, false, Option, none, some, [], ◌∷◌, if◌then◌else◌, arith,
}
use ipci_blockchain.Prelude.Options.{or_else}
use ipci_blockchain.Text.{Text, codes, Result, ok, err}
use ipci_blockchain.Node.Rpc.{Types, FullDeps, IoHandler, Extensions, Delegate, create_full}
use ipci_blockchain.Node.Rpc.Served.{Api, extension, Distinct, create_full-serves}
use ipci_blockchain.Node.Service.{Configuration, Role, new_light_base}
use ipci_blockchain.Node.Service.Steps.{Failures, Step}
use ipci_blockchain.Node.Browser.{Browser, raised, chain_spec_of, start_inner, start}
use ipci_blockchain.Node.Browser.Client.{Succeeded, start-ok_iff}

abbrev numbers : Types
numbers = record {
  Client = ℕ;
  Pool = ℕ;
  SelectChain = ℕ;
  DenyUnsafe = ℕ;
  Config = ℕ;
  SharedEpochChanges = ℕ;
  KeyStore = ℕ;
  SharedVoterState = ℕ;
  SharedAuthoritySet = ℕ;
  JustificationStream = ℕ;
  SubscriptionExecutor = ℕ;
  FinalityProvider = ℕ;
  RemoteBlockchain = ℕ;
  Fetcher = ℕ;
}

abbrev deps : FullDeps numbers
deps = record {
  client = 1;
  pool = 2;
  select_chain = 3;
  deny_unsafe = 4;
  babe = record { babe_config = 5; shared_epoch_changes = 6; keystore = 7 };
  grandpa = record {
    shared_voter_state = 8;
    shared_authority_set = 9;
    justification_stream = 10;
    subscription_executor = 11;
    finality_provider = 12;
  };
}

-- a handler that is the lookup of its methods; a method is the number of what answers it
abbrev lookup_handler : IoHandler ℕ
lookup_handler = record {
  Io = Text → Option ℕ;
  default = λ name. none;
  extend_with = λ d io name. or_else (d name) (io name);
  get = λ io name. io name;
  get-default = λ name. refl;
  get-extend_with = λ d io name. refl;
}

-- the methods whose names begin with a letter
abbrev prefixed : ℕ → ℕ → Delegate ℕ
prefixed letter m [] = none
prefixed letter m (c ∷ name) = if c == letter then some m else none

abbrev extensions : Extensions numbers ℕ
extensions = record {
  full_system = λ client pool deny_unsafe. prefixed b's' pool;
  transaction_payment = λ client. prefixed b'p' client;
  babe_rpc = λ client epochs keystore config select deny_unsafe. prefixed b'b' keystore;
  grandpa_rpc = λ authorities voters stream executor finality. prefixed b'g' finality;
  light_system = λ client remote fetcher pool. prefixed b's' remote;
}

abbrev letter_of : Api → ℕ
letter_of Api.system = b's'
letter_of Api.payment = b'p'
letter_of Api.babe = b'b'
letter_of Api.grandpa = b'g'

abbrev api_of : ℕ → Option Api
api_of c =
    if c == b's'
    then some Api.system
    else (if c == b'p'
        then some Api.payment
        else (if c == b'b' then some Api.babe else some Api.grandpa))

api_of-letter_of : (a : Api) → api_of (letter_of a) ≡ some a
api_of-letter_of Api.system = refl
api_of-letter_of Api.payment = refl
api_of-letter_of Api.babe = refl
api_of-letter_of Api.grandpa = refl

abbrev first_letter : Text → ℕ
first_letter [] = 0
first_letter (c ∷ name) = c

prefixed-first :
    (letter m n : ℕ) (name : Text) → prefixed letter m name ≡ some n → first_letter name ≡ letter
prefixed-first letter m n [] h = cc h
prefixed-first letter m n (c ∷ name) h = ground arith

answered :
    (a : Api) (name : Text) (m : ℕ)
    → extension lookup_handler extensions deps a name ≡ some m
    → first_letter name ≡ letter_of a
answered Api.system name m h = prefixed-first _ _ m name h
answered Api.payment name m h = prefixed-first _ _ m name h
answered Api.babe name m h = prefixed-first _ _ m name h
answered Api.grandpa name m h = prefixed-first _ _ m name h

extensions-Distinct : Distinct lookup_handler extensions deps
extensions-Distinct name a b m n p q =
    let same : some a ≡ some b =
      sym (api_of-letter_of a)
      ∙ ap api_of (sym (answered a name m p) ∙ answered b name n q)
      ∙ api_of-letter_of b in
    cc same

create_full-serves_example :
    (lookup_handler.get (create_full lookup_handler extensions deps) (codes "babe_epochAuthorship")
      ≡ some 7)
    ↔ ((a : Api) × (extension lookup_handler extensions deps a (codes "babe_epochAuthorship")
          ≡ some 7))
create_full-serves_example =
    create_full-serves lookup_handler extensions deps extensions-Distinct
      (codes "babe_epochAuthorship") 7

no_other_method :
    lookup_handler.get (create_full lookup_handler extensions deps) (codes "author_submitExtrinsic")
    ≡ none
unfolding create_full
no_other_method = refl

abbrev light_node : Configuration ℕ
light_node = record {
  role = Role.light;
  is_authority = λ role. false;
  is_network_authority = λ role. false;
  force_authoring = false;
  disable_grandpa = false;
  offchain_worker_enabled = false;
  node_name = codes "browser";
}

abbrev level_of : Text → Result ℕ ℕ
level_of [] = err 4
level_of (c ∷ name) = ok c

-- a browser in which a call of the framework may fail
abbrev browser : Failures ℕ ℕ → Browser ℕ ℕ ℕ ℕ ℕ ℕ
browser fails = record {
  level_from_str = level_of;
  init_console_log_fails = λ level. none;
  from_json_bytes = λ s. err 8;
  development_config = 3;
  configuration = λ spec. ok light_node;
  fails = fails;
  debug_spec_error = λ e. e ∷ [];
  debug_service_error = λ e. e ∷ [];
  boxed = first_letter;
  to_string = λ e. e ∷ [];
}

start-ok_iff_example :
    ((start (browser (λ s. none)) none (codes "info")).0 ≡ ok tt)
    ↔ Succeeded (browser (λ s. none)) none (codes "info")
start-ok_iff_example = start-ok_iff (browser (λ s. none)) none (codes "info")

client_starts : (start (browser (λ s. none)) none (codes "info")).0 ≡ ok tt
unfolding start start_inner chain_spec_of new_light_base
client_starts = refl

no_level : (start (browser (λ s. none)) none []).0 ≡ err (raised (4 ∷ []))
unfolding start start_inner chain_spec_of new_light_base
no_level = refl

bad_specification : (start (browser (λ s. none)) (some []) (codes "info")).0 ≡ err (raised (8 ∷ []))
unfolding start start_inner chain_spec_of new_light_base
bad_specification = refl

abbrev tasks_fail : Failures ℕ ℕ
tasks_fail Step.spawn_tasks = some 6
tasks_fail _ = none

no_tasks : (start (browser tasks_fail) none (codes "info")).0 ≡ err (raised (6 ∷ []))
unfolding start start_inner chain_spec_of new_light_base
no_tasks = refl

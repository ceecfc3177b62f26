-- ===== src/Node/Service/Steps.antt =====
-- The calls that node/cli/src/service.rs makes of the framework, and how it chains them with `?`.
use ipci_blockchain.Prelude.{ℕ, Bool, true, false, Option, none, some, List, [], ◌∷◌, ◌++◌}
use ipci_blockchain.Text.{Text}

-- `sc_authority_discovery::Role`; the keystore in it is the node's
pub data DiscoveryRole : Type 0 where
  authority : DiscoveryRole
  sentry : DiscoveryRole

-- `grandpa::Config`; `has_keystore` says whether the keystore is handed over
pub record GrandpaConfig : Type 0 where
  pub gossip_duration_ms : ℕ
  pub justification_period : ℕ
  pub name : Option Text
  pub observer_enabled : Bool
  pub has_keystore : Bool
  pub is_authority : Bool

-- The calls of the framework.
pub data Step (Address : Type 0) : Type 0 where
  new_full_parts new_light_parts new_full_pool new_light_pool : Step Address
  grandpa_block_import light_block_import get_or_compute_babe_config babe_block_import :
      Step Address
  import_queue build_network build_offchain_workers spawn_tasks with_startup_data : Step Address
  -- `start_babe`, with `force_authoring`
  start_babe : Bool → Step Address
  -- `new_worker_and_service` of the authority discovery, with the sentries and the role
  new_discovery_worker : List Address → DiscoveryRole → Step Address
  -- a task handed to the task manager, and whether it is essential
  spawn : Bool → Text → Step Address
  run_grandpa_voter : GrandpaConfig → Step Address
  setup_disabled_grandpa start_network : Step Address

-- How a part of the assembly ends.
pub data Ended (ServiceError : Type 0) : Type 0 where
  completed : Ended ServiceError
  failed : ServiceError → Ended ServiceError
  -- `unreachable!`
  panicked : Ended ServiceError

-- Which of the fallible calls fail, and how.
abbrev pub Failures : Type 0 → Type 0 → Type 0
Failures Address ServiceError = Step Address → Option ServiceError

-- A part of the assembly: given what fails, how it ends and the calls made, in order.
abbrev pub Assembly : Type 0 → Type 0 → Type 0
Assembly Address ServiceError =
    Failures Address ServiceError → Ended ServiceError × List (Step Address)

abbrev pub outcome : {ServiceError : Type 0} → Option ServiceError → Ended ServiceError
outcome none = completed
outcome (some e) = failed e

-- The calls of the second part are made when the first completes.
abbrev pub continue :
    {A ServiceError : Type 0}
    → Ended ServiceError
    → List A
    → Ended ServiceError × List A
    → Ended ServiceError × List A
continue completed made rest = (rest.0, made ++ rest.1)
continue (failed e) made rest = (failed e, made)
continue panicked made rest = (panicked, made)

module _ {Address ServiceError : Type 0} where
  -- `m >> n` makes the calls of `n` when `m` completes.
  infixr 10 ◌>>◌
  abbrev pub ◌>>◌ :
      Assembly Address ServiceError → Assembly Address ServiceError → Assembly Address ServiceError
  (m >> n) fails = continue (m fails).0 (m fails).1 (n fails)

  -- a call with `?` behind it
  abbrev pub try_call : Step Address → Assembly Address ServiceError
  try_call s fails = (outcome (fails s), s ∷ [])

  -- a call that does not fail
  abbrev pub call : Step Address → Assembly Address ServiceError
  call s fails = (completed, s ∷ [])

  abbrev pub panic : Assembly Address ServiceError
  panic fails = (panicked, [])

  abbrev pub done : Assembly Address ServiceError
  done fails = (completed, [])

  abbrev pub when : Bool → Assembly Address ServiceError → Assembly Address ServiceError
  when true m = m
  when false m = done

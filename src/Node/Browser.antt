-- ===== src/Node/Browser.antt =====
-- node/cli/src/browser.rs: a light node that is started in a browser. What is not the repository's own
-- code, the logger, the reader of specifications and the configuration, is a parameter.
pub mod Client
use ipci_blockchain.Prelude.{Option, none, some, List, [], ◌∷◌, ◌++◌, map}
use ipci_blockchain.Text.{Text, Result, ok, err, map_err}
use ipci_blockchain.Node.Service.{Configuration, new_light_base}
use ipci_blockchain.Node.Service.Steps.{Failures, Step, Ended}

-- what `start_client` calls, in order
pub data Act (Level Spec Address : Type 0) : Type 0 where
  set_console_error_panic_hook : Act Level Spec Address
  init_console_log : Level → Act Level Spec Address
  browser_configuration : Spec → Act Level Spec Address
  assemble : Step Address → Act Level Spec Address
  start_client : Act Level Spec Address

pub record Browser (Level Spec SpecError Error Address ServiceError : Type 0) : Type 0 where
  pub level_from_str : Text → Result Error Level
  pub init_console_log_fails : Level → Option Error
  pub from_json_bytes : Text → Result SpecError Spec
  pub development_config : Spec
  pub configuration : Spec → Result Error (Configuration Address)
  pub fails : Failures Address ServiceError
  -- the texts by `{:?}`, and the error that a text becomes
  pub debug_spec_error : SpecError → Text
  pub debug_service_error : ServiceError → Text
  pub boxed : Text → Error
  -- `err.to_string()`
  pub to_string : Error → Text

-- how a call ends that gives no value: with an error, or with a panic
pub data Fault (Error : Type 0) : Type 0 where
  raised : Error → Fault Error
  panicked : Fault Error

-- a part of the start: its result, and the calls made
abbrev pub Run : Type 0 → Type 0 → Type 0 → Type 0
Run A Error B = Result (Fault Error) B × List A

module _ {A Error B C : Type 0} where
  abbrev pub chain : Result (Fault Error) B → List A → (B → Run A Error C) → Run A Error C
  chain (ok b) made f = ((f b).0, made ++ (f b).1)
  chain (err e) made f = (err e, made)

  infixl 10 ◌>>=◌
  abbrev pub ◌>>=◌ : Run A Error B → (B → Run A Error C) → Run A Error C
  m >>= f = chain m.0 m.1 f

abbrev pub try : {Error B : Type 0} → Result Error B → Result (Fault Error) B
try r = map_err raised r

abbrev pub returned : {Error : Type 0} → Option Error → Result (Fault Error) (Unit {0})
returned none = ok tt
returned (some e) = err (raised e)

module _ {Level Spec SpecError Error Address ServiceError : Type 0}
    (b : Browser Level Spec SpecError Error Address ServiceError) where
  -- the specification that is given, or the development chain's
  unfoldable pub chain_spec_of : Option Text → Result Error Spec
  chain_spec_of none = ok b.development_config
  chain_spec_of (some s) = map_err (λ e. b.boxed (b.debug_spec_error e)) (b.from_json_bytes s)

  abbrev pub ended : Ended ServiceError → Result (Fault Error) (Unit {0})
  ended Ended.completed = ok tt
  ended (Ended.failed e) = err (raised (b.boxed (b.debug_service_error e)))
  ended Ended.panicked = err panicked

  -- `start_inner`
  unfoldable pub start_inner : Option Text → Text → Run (Act Level Spec Address) Error (Unit {0})
  start_inner chain_spec log_level = do
    level ← (try (b.level_from_str log_level), set_console_error_panic_hook ∷ [])
    logging ← (returned (b.init_console_log_fails level), init_console_log level ∷ [])
    spec ← (try (chain_spec_of chain_spec), [])
    config ← (try (b.configuration spec), browser_configuration spec ∷ [])
    let node = new_light_base ServiceError config b.fails
    made ← (ended node.0, map assemble node.1)
    (ok tt, start_client ∷ [])

  abbrev pub shown : Fault Error → Fault Text
  shown (raised e) = raised (b.to_string e)
  shown panicked = panicked

  -- `start_client`
  unfoldable pub start : Option Text → Text → Run (Act Level Spec Address) Text (Unit {0})
  start chain_spec log_level = let r = start_inner chain_spec log_level in (map_err shown r.0, r.1)

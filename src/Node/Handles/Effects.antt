-- ===== src/Node/Handles/Effects.antt =====
-- How node/cli/src/service.rs chains the calls of the framework: a part of the assembly changes the state
-- of the process, and returns a value, returns an error with `?`, or panics.
use ipci_blockchain.Prelude.{Bool, true, false}
use ipci_blockchain.Text.{Result, ok, err}

pub data Outcome (E A : Type 0) : Type 0 where
  returned : A → Outcome E A
  failed : E → Outcome E A
  panicked : Outcome E A

-- a part of the assembly
abbrev pub M : Type 0 → Type 0 → Type 0 → Type 0
M State E A = State → Outcome E A × State

module _ {State E : Type 0} where
  abbrev pub chain : {A B : Type 0} → Outcome E A × State → (A → M State E B) → Outcome E B × State
  chain (returned a, s) f = f a s
  chain (failed e, s) f = (failed e, s)
  chain (panicked, s) f = (panicked, s)

  infixl 10 ◌>>=◌ ◌>>◌
  unfoldable pub ◌>>=◌ : {A B : Type 0} → M State E A → (A → M State E B) → M State E B
  ◌>>=◌ m f s = chain (m s) f

  abbrev pub ◌>>◌ : {A B : Type 0} → M State E A → M State E B → M State E B
  m >> n = m >>= λ _. n

  unfoldable pub pure : {A : Type 0} → A → M State E A
  pure a s = (returned a, s)

  abbrev pub outcome : {A : Type 0} → Result E A × State → Outcome E A × State
  outcome (ok a, s) = (returned a, s)
  outcome (err e, s) = (failed e, s)

  -- a call with `?` behind it
  unfoldable pub try : {A : Type 0} → (State → Result E A × State) → M State E A
  try f s = outcome (f s)

  -- a call that cannot fail
  unfoldable pub make : {A : Type 0} → (State → A × State) → M State E A
  make f s = let (a, s') = f s in (returned a, s')

  -- `unreachable!`
  unfoldable pub unreachable : {A : Type 0} → M State E A
  unreachable s = (panicked, s)

  -- an error that is returned at once
  unfoldable pub fail : {A : Type 0} → E → M State E A
  fail e s = (failed e, s)

  -- `Result::map`
  abbrev pub map_result : {A B : Type 0} → (A → B) → M State E A → M State E B
  map_result f m = m >>= λ a. pure (f a)

  unfoldable pub when : Bool → M State E (Unit {0}) → M State E (Unit {0})
  when true m = m
  when false m = pure tt

module _ {State E F A : Type 0} where
  abbrev pub map_failed : (E → F) → Outcome E A × State → Outcome F A × State
  map_failed g (returned a, s) = (returned a, s)
  map_failed g (failed e, s) = (failed (g e), s)
  map_failed g (panicked, s) = (panicked, s)

  -- the conversion of the error by `?`
  unfoldable pub map_error : (E → F) → M State E A → M State F A
  map_error g m s = map_failed g (m s)

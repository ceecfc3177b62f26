-- ===== src/Node/ChainSpec.antt =====
-- node/cli/src/chain_spec.rs: the genesis state of a test network, and the chain specifications. A
-- panic (`expect`) is `none`.
pub mod Genesis
pub mod Once
pub mod Repeats
pub mod Named
use ipci_blockchain.Prelude.{ℕ, ◌*◌, ◌%◌, ◌^◌, Option, none, some, List, [], ◌∷◌, ◌++◌, map, length}
use ipci_blockchain.Prelude.Options.{◌>>=◌}
use ipci_blockchain.Text.{Text, codes}
use ipci_blockchain.Runtime.Constants.{mito, mul_balance}

-- The types of the accounts and of the keys, which the framework defines.
pub record Keys : Type 1 where
  pub AccountId : Type 0
  pub GrandpaId : Type 0
  pub BabeId : Type 0
  pub ImOnlineId : Type 0
  pub AuthorityDiscoveryId : Type 0

module _ (k : Keys) where
  -- `SessionKeys`
  pub record SessionKeys : Type 0 where
    pub grandpa : k.GrandpaId
    pub babe : k.BabeId
    pub im_online : k.ImOnlineId
    pub authority_discovery : k.AuthorityDiscoveryId

  -- the tuple that `authority_keys_from_seed` returns
  pub record Authority : Type 0 where
    pub stash : k.AccountId
    pub controller : k.AccountId
    pub grandpa_id : k.GrandpaId
    pub babe_id : k.BabeId
    pub im_online_id : k.ImOnlineId
    pub authority_discovery_id : k.AuthorityDiscoveryId

  -- What the pair types of the framework make of a string: `Pair::from_string` and `public`, with
  -- `into_account` behind it for an account.
  pub record FromString : Type 0 where
    pub account : Text → Option k.AccountId
    pub grandpa_key : Text → Option k.GrandpaId
    pub babe_key : Text → Option k.BabeId
    pub im_online_key : Text → Option k.ImOnlineId
    pub authority_discovery_key : Text → Option k.AuthorityDiscoveryId

  -- `StakingConfig`, the fields that the source sets; the slash is in percent, every staker a validator
  pub record StakingConfig : Type 0 where
    pub validator_count : ℕ
    pub minimum_validator_count : ℕ
    pub stakers : List (k.AccountId × k.AccountId × ℕ)
    pub invulnerables : List k.AccountId
    pub slash_reward_percent : ℕ

  -- `GenesisConfig`; the lists of the other pallets are empty
  pub record GenesisConfig : Type 0 where
    pub code : List ℕ
    pub balances : List (k.AccountId × ℕ)
    pub session_keys : List (k.AccountId × k.AccountId × SessionKeys)
    pub staking : StakingConfig
    pub sudo_key : k.AccountId

  -- `session_keys` of an authority
  abbrev session_keys_of : Authority → SessionKeys
  session_keys_of x = record {
    grandpa = x.grandpa_id;
    babe = x.babe_id;
    im_online = x.im_online_id;
    authority_discovery = x.authority_discovery_id;
  }

-- `get_from_seed`
abbrev pub get_from_seed : {A : Type 0} → (Text → Option A) → Text → Option A
get_from_seed from_string seed = from_string (codes "//" ++ seed)

-- the accounts of a list of seeds
abbrev pub accounts_from_seeds : {A : Type 0} → (Text → Option A) → List Text → Option (List A)
accounts_from_seeds from_string [] = some []
accounts_from_seeds from_string (seed ∷ seeds) = do
  a ← get_from_seed from_string seed
  rest ← accounts_from_seeds from_string seeds
  some (a ∷ rest)

-- the accounts that `testnet_genesis` endows by default
abbrev pub default_seeds : List Text
default_seeds =
    codes "Alice"
    ∷ codes "Bob"
    ∷ codes "Charlie"
    ∷ codes "Dave"
    ∷ codes "Eve"
    ∷ codes "Ferdie"
    ∷ codes "Alice//stash"
    ∷ codes "Bob//stash"
    ∷ codes "Charlie//stash"
    ∷ codes "Dave//stash"
    ∷ codes "Eve//stash"
    ∷ codes "Ferdie//stash"
    ∷ []

-- `ENDOWMENT` and `STAKE`
abbrev pub endowment : ℕ
endowment = mul_balance 10_000_000 mito

abbrev pub stake : ℕ
stake = mul_balance 500_000 mito

module _ {k : Keys} where
  -- `authority_keys_from_seed`
  unfoldable pub authority_keys_from_seed : FromString k → Text → Option (Authority k)
  authority_keys_from_seed f seed = do
    stash ← get_from_seed f.account (seed ++ codes "//stash")
    controller ← get_from_seed f.account seed
    grandpa ← get_from_seed f.grandpa_key seed
    babe ← get_from_seed f.babe_key seed
    im_online ← get_from_seed f.im_online_key seed
    discovery ← get_from_seed f.authority_discovery_key seed
    some (record {
      stash = stash;
      controller = controller;
      grandpa_id = grandpa;
      babe_id = babe;
      im_online_id = im_online;
      authority_discovery_id = discovery;
    })

  -- the argument of `testnet_genesis`, or the accounts that it endows by default
  unfoldable pub endowed_accounts :
      FromString k → Option (List k.AccountId) → Option (List k.AccountId)
  endowed_accounts f (some accounts) = some accounts
  endowed_accounts f none = accounts_from_seeds f.account default_seeds

  -- the value that `testnet_genesis` returns, of the accounts that it endows
  abbrev pub genesis :
      List ℕ → List (Authority k) → k.AccountId → List k.AccountId → GenesisConfig k
  genesis wasm initial_authorities root_key endowed = record {
    code = wasm;
    balances = map (λ a. (a, endowment)) endowed ++ map (λ x. (x.stash, stake)) initial_authorities;
    session_keys = map (λ x. (x.stash, x.stash, session_keys_of k x)) initial_authorities;
    staking = record {
      validator_count = length initial_authorities % 2 ^ 32 * 2 % 2 ^ 32;
      minimum_validator_count = length initial_authorities % 2 ^ 32;
      stakers = map (λ x. (x.stash, x.controller, stake)) initial_authorities;
      invulnerables = map (λ x. x.stash) initial_authorities;
      slash_reward_percent = 10;
    };
    sudo_key = root_key;
  }

  -- `testnet_genesis`, with the bytes of the runtime
  unfoldable pub testnet_genesis :
      FromString k
      → List ℕ
      → List (Authority k)
      → k.AccountId
      → Option (List k.AccountId)
      → Option (GenesisConfig k)
  testnet_genesis f wasm initial_authorities root_key endowed = do
    accounts ← endowed_accounts f endowed
    some (genesis wasm initial_authorities root_key accounts)

  -- `development_config_genesis`
  unfoldable pub development_config_genesis : FromString k → List ℕ → Option (GenesisConfig k)
  development_config_genesis f wasm = do
    alice ← authority_keys_from_seed f (codes "Alice")
    root ← get_from_seed f.account (codes "Alice")
    testnet_genesis f wasm (alice ∷ []) root none

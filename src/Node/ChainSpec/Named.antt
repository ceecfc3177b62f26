-- ===== src/Node/ChainSpec/Named.antt =====
-- node/cli/src/chain_spec.rs: the specifications that the command line names, and `properties`.
use ipci_blockchain.Prelude.{ℕ, ◌^◌, ◌≡◌, refl, Option, none, some, List, [], ◌∷◌}
use ipci_blockchain.Text.{Text, codes, Result, ok, err}
use ipci_blockchain.Runtime.Constants.{mito}
use ipci_blockchain.Node.ChainSpec.{Keys, FromString, GenesisConfig, development_config_genesis}

-- the values of `Properties`, a map to JSON
pub data Value : Type 0 where
  number : ℕ → Value
  text : Text → Value

-- `properties`
abbrev pub properties : List (Text × Value)
properties =
    (codes "ss58Format", number 32)
    ∷ (codes "tokenDecimals", number 12)
    ∷ (codes "tokenSymbol", text (codes "MITO"))
    ∷ []

-- A unit of the token is a MITO.
decimals_of_mito : 10 ^ 12 ≡ mito
decimals_of_mito = refl

pub data ChainType : Type 0 where
  development local live : ChainType

-- `Extensions`, with the bytes of a hash; without an entry by default
pub record Extensions : Type 0 where
  pub fork_blocks : Option (List (ℕ × List ℕ))
  pub bad_blocks : Option (List (List ℕ))

abbrev pub default_extensions : Extensions
default_extensions = record { fork_blocks = none; bad_blocks = none }

-- `sc_service::GenericChainSpec` as `from_genesis` makes it; a genesis that panics is `none`
pub record Spec (k : Keys) : Type 0 where
  pub name : Text
  pub id : Text
  pub chain_type : ChainType
  pub genesis : Option (GenesisConfig k)
  pub boot_nodes : List Text
  pub telemetry_endpoints : Option (List Text)
  pub protocol_id : Option Text
  pub chain_properties : Option (List (Text × Value))
  pub extensions : Extensions

-- `development_config`
unfoldable pub development_config : {k : Keys} → FromString k → List ℕ → Spec k
development_config f wasm = record {
  name = codes "Development";
  id = codes "dev";
  chain_type = development;
  genesis = development_config_genesis f wasm;
  boot_nodes = [];
  telemetry_endpoints = none;
  protocol_id = none;
  chain_properties = none;
  extensions = default_extensions;
}

-- `ipci_config`, of the bytes of the built-in file; its `unwrap` panics where they are no specification
unfoldable pub ipci_config :
    {ChainSpec : Type 0} → (List ℕ → Result Text ChainSpec) → List ℕ → Option ChainSpec
ipci_config from_json_bytes res = elim (from_json_bytes res) [ ok spec ↦ some spec | err e ↦ none ]

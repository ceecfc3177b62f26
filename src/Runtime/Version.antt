-- ===== src/Runtime/Version.antt =====
-- node/runtime/src/lib.rs: what the native node takes of the runtime, its version and its WebAssembly
-- code.
use ipci_blockchain.Prelude.{ℕ, ◌≡◌, refl, arith, Option, none, some, List, []}
use ipci_blockchain.Prelude.Options.{◌>>=◌}
use ipci_blockchain.Node.ChainSpec.{
  Keys, FromString, GenesisConfig, testnet_genesis, development_config_genesis,
}
use ipci_blockchain.Runtime.Apis.{RuntimeVersion, version}

-- `WASM_BINARY` is there unless the build was told to leave it out; a panic is `none`
unfoldable pub wasm_binary_unwrap : Option (List ℕ) → Option (List ℕ)
wasm_binary_unwrap none = none
wasm_binary_unwrap (some code) = some code

-- the framework's `NativeVersion`, with the other versions that a node can author for
pub record NativeVersion (Apis : Type 0) : Type 0 where
  pub runtime_version : RuntimeVersion Apis
  pub can_author_with : List ℕ

abbrev pub native_version : {Apis : Type 0} → Apis → NativeVersion Apis
native_version runtime_api_versions = record {
  runtime_version = version runtime_api_versions;
  can_author_with = [];
}

module _ {k : Keys} where
  -- the genesis state of the built-in specification, with the code that the build left
  unfoldable pub built_in_genesis : FromString k → Option (List ℕ) → Option (GenesisConfig k)
  built_in_genesis f wasm_binary = do
    wasm ← wasm_binary_unwrap wasm_binary
    development_config_genesis f wasm

  -- A node that was built without the code has no built-in genesis state.
  no_code : (f : FromString k) → built_in_genesis f none ≡ none
  unfolding built_in_genesis wasm_binary_unwrap
  no_code f = refl

  -- The genesis state that a node finds carries the code that it was built with.
  code_kept :
      (f : FromString k) (code : List ℕ) (g : GenesisConfig k)
      → built_in_genesis f (some code) ≡ some g
      → g.code ≡ code
  unfolding built_in_genesis wasm_binary_unwrap development_config_genesis testnet_genesis
  code_kept f code g found = ground arith

-- ===== src/Runtime/Apis.antt =====
-- node/runtime/src/lib.rs, `impl_runtime_apis!`: the entry points by which the node calls the runtime,
-- those that do more than pass their arguments on.
pub mod Equivocation
pub mod Delegated
use ipci_blockchain.Prelude.{ℕ, Option, none, some}
use ipci_blockchain.Text.{Text, codes}
use ipci_blockchain.Runtime.Constants.{primary_probability}
use ipci_blockchain.Runtime.Parameters.{epoch_duration}

-- `RuntimeVersion`, and `VERSION`, with the versions of the APIs that the framework generates
pub record RuntimeVersion (Apis : Type 0) : Type 0 where
  pub spec_name : Text
  pub impl_name : Text
  pub authoring_version : ℕ
  pub spec_version : ℕ
  pub impl_version : ℕ
  pub apis : Apis
  pub transaction_version : ℕ

abbrev pub version : {Apis : Type 0} → Apis → RuntimeVersion Apis
version runtime_api_versions = record {
  spec_name = codes "ipci";
  impl_name = codes "ipci-airalab";
  authoring_version = 1;
  spec_version = 20;
  impl_version = 20;
  apis = runtime_api_versions;
  transaction_version = 2;
}

-- What an API that reports equivocations calls, of BABE or of GRANDPA: the codec of key ownership
-- proofs, the historical session pallet, and the pallet of the consensus.
pub record Equivocations (State KeyType AuthorityId Proof Opaque EquivocationProof : Type 0)
    : Type 0 where
  -- `KEY_TYPE`
  pub key_type : KeyType
  -- `Historical::prove`
  pub prove : State → KeyType × AuthorityId → Option Proof
  -- `OpaqueKeyOwnershipProof::new` of the encoding, and `decode`
  pub encode : Proof → Opaque
  pub decode : Opaque → Option Proof
  -- `submit_unsigned_equivocation_report`
  pub submit_unsigned_report : EquivocationProof → Proof → State → Option (Unit {0}) × State

module _ {State KeyType AuthorityId Proof Opaque EquivocationProof : Type 0}
    (c : Equivocations State KeyType AuthorityId Proof Opaque EquivocationProof) where
  abbrev submit_decoded : EquivocationProof → Option Proof → State → Option (Unit {0}) × State
  submit_decoded equivocation_proof none s = (none, s)
  submit_decoded equivocation_proof (some key_owner_proof) s =
      c.submit_unsigned_report equivocation_proof key_owner_proof s

  -- `submit_report_equivocation_unsigned_extrinsic` of `GrandpaApi`
  unfoldable pub submit_report_equivocation :
      EquivocationProof → Opaque → State → Option (Unit {0}) × State
  submit_report_equivocation equivocation_proof key_owner_proof s =
      submit_decoded equivocation_proof (c.decode key_owner_proof) s

  abbrev encoded : Option Proof → Option Opaque
  encoded none = none
  encoded (some p) = some (c.encode p)

  -- `generate_key_ownership_proof` of `GrandpaApi`, which ignores the set's id
  unfoldable pub generate_key_ownership_proof : ℕ → AuthorityId → State → Option Opaque
  generate_key_ownership_proof set_id authority_id s =
      encoded (c.prove s (c.key_type, authority_id))

  -- the two functions of `BabeApi`, which do the same for BABE; the second ignores the slot's number
  abbrev pub submit_babe_equivocation :
      EquivocationProof → Opaque → State → Option (Unit {0}) × State
  submit_babe_equivocation = submit_report_equivocation

  abbrev pub generate_babe_ownership_proof : ℕ → AuthorityId → State → Option Opaque
  generate_babe_ownership_proof = generate_key_ownership_proof

-- `BabeGenesisConfiguration`, with `c` as a fraction
pub data AllowedSlots : Type 0 where
  primary_slots primary_and_secondary_plain_slots primary_and_secondary_vrf_slots : AllowedSlots

pub record BabeGenesisConfiguration (Authorities Randomness : Type 0) : Type 0 where
  pub slot_duration : ℕ
  pub epoch_length : ℕ
  pub c : ℕ × ℕ
  pub genesis_authorities : Authorities
  pub randomness : Randomness
  pub allowed_slots : AllowedSlots

-- the getters of the BABE pallet
pub record Babe (State Authorities Randomness : Type 0) : Type 0 where
  pub slot_duration : State → ℕ
  pub authorities : State → Authorities
  pub get_randomness : State → Randomness

-- `BabeApi::configuration`
unfoldable pub configuration :
    {State Authorities Randomness : Type 0}
    → Babe State Authorities Randomness
    → State
    → BabeGenesisConfiguration Authorities Randomness
configuration babe s = record {
  slot_duration = babe.slot_duration s;
  epoch_length = epoch_duration;
  c = primary_probability;
  genesis_authorities = babe.authorities s;
  randomness = babe.get_randomness s;
  allowed_slots = AllowedSlots.primary_and_secondary_plain_slots;
}

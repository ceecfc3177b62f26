-- ===== src/Runtime/Pallets/Parts.antt =====
-- How the pallets' parts in node/runtime/src/lib.rs fit what else names them: the genesis of
-- node/cli/src/chain_spec.rs and the runtime's APIs.
use ipci_blockchain.Prelude.{Bool, true, false, ◌||◌, List, [], ◌∷◌, ◌≡◌, refl}
use ipci_blockchain.Runtime.Pallets.{Pallet, Part, parts}

abbrev is_config : Part → Bool
is_config Part.config = true
is_config _ = false

abbrev pub is_validate_unsigned : Part → Bool
is_validate_unsigned Part.validate_unsigned = true
is_validate_unsigned _ = false

abbrev pub has : (Part → Bool) → List Part → Bool
has t [] = false
has t (p ∷ ps) = t p || has t ps

-- the pallets that `testnet_genesis` configures
abbrev in_genesis : Pallet → Bool
in_genesis Pallet.system = true
in_genesis Pallet.indices = true
in_genesis Pallet.balances = true
in_genesis Pallet.babe = true
in_genesis Pallet.grandpa = true
in_genesis Pallet.session = true
in_genesis Pallet.staking = true
in_genesis Pallet.sudo = true
in_genesis Pallet.im_online = true
in_genesis Pallet.authority_discovery = true
in_genesis _ = false

-- the pallets of which the source says that they take unsigned transactions: heartbeats, election
-- solutions, and the reports of equivocations of the two consensus pallets
abbrev takes_unsigned : Pallet → Bool
takes_unsigned Pallet.im_online = true
takes_unsigned Pallet.staking = true
takes_unsigned Pallet.babe = true
takes_unsigned Pallet.grandpa = true
takes_unsigned _ = false

-- The genesis of a test network configures exactly the pallets that have a configuration, and exactly
-- the pallets that take unsigned transactions validate them.
parts-fit :
    (p : Pallet)
    → (has is_config (parts p) ≡ in_genesis p)
      × (has is_validate_unsigned (parts p) ≡ takes_unsigned p)
unfolding parts
parts-fit Pallet.system = (refl, refl)
parts-fit Pallet.utility = (refl, refl)
parts-fit Pallet.timestamp = (refl, refl)
parts-fit Pallet.identity = (refl, refl)
parts-fit Pallet.indices = (refl, refl)
parts-fit Pallet.balances = (refl, refl)
parts-fit Pallet.transaction_payment = (refl, refl)
parts-fit Pallet.multisig = (refl, refl)
parts-fit Pallet.randomness_collective_flip = (refl, refl)
parts-fit Pallet.session = (refl, refl)
parts-fit Pallet.authorship = (refl, refl)
parts-fit Pallet.staking = (refl, refl)
parts-fit Pallet.offences = (refl, refl)
parts-fit Pallet.historical = (refl, refl)
parts-fit Pallet.babe = (refl, refl)
parts-fit Pallet.grandpa = (refl, refl)
parts-fit Pallet.im_online = (refl, refl)
parts-fit Pallet.authority_discovery = (refl, refl)
parts-fit Pallet.datalog = (refl, refl)
parts-fit Pallet.sudo = (refl, refl)

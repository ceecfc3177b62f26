-- ===== src/Runtime/Pallets.antt =====
-- node/runtime/src/lib.rs, `construct_runtime!`: the pallets of the runtime, in their order, and which
-- parts of each the runtime has.
pub mod Parts
pub mod Traits
use ipci_blockchain.Prelude.{Bool, true, false, List, [], ◌∷◌}

pub data Pallet : Type 0 where
  system utility timestamp identity indices balances transaction_payment multisig : Pallet
  randomness_collective_flip session authorship staking offences historical babe : Pallet
  grandpa im_online authority_discovery datalog sudo : Pallet

pub data Part : Type 0 where
  module_ call storage config event inherent validate_unsigned : Part

abbrev pub pallets : List Pallet
pallets =
    system ∷ utility ∷ timestamp ∷ identity ∷ indices ∷ balances ∷ transaction_payment ∷ multisig
    ∷ randomness_collective_flip ∷ session ∷ authorship ∷ staking ∷ offences ∷ historical ∷ babe
    ∷ grandpa ∷ im_online ∷ authority_discovery ∷ datalog ∷ sudo ∷ []

-- the parts that the runtime takes of a pallet
unfoldable pub parts : Pallet → List Part
parts system = module_ ∷ call ∷ config ∷ storage ∷ event ∷ []
parts utility = module_ ∷ call ∷ event ∷ []
parts timestamp = module_ ∷ call ∷ storage ∷ inherent ∷ []
parts identity = module_ ∷ call ∷ storage ∷ event ∷ []
parts indices = module_ ∷ call ∷ storage ∷ config ∷ event ∷ []
parts balances = module_ ∷ call ∷ storage ∷ config ∷ event ∷ []
parts transaction_payment = module_ ∷ storage ∷ []
parts multisig = module_ ∷ call ∷ storage ∷ event ∷ []
parts randomness_collective_flip = module_ ∷ call ∷ storage ∷ []
parts session = module_ ∷ call ∷ storage ∷ event ∷ config ∷ []
parts authorship = module_ ∷ call ∷ storage ∷ inherent ∷ []
parts staking = module_ ∷ call ∷ config ∷ storage ∷ event ∷ validate_unsigned ∷ []
parts offences = module_ ∷ call ∷ storage ∷ event ∷ []
parts historical = module_ ∷ []
parts babe = module_ ∷ call ∷ storage ∷ config ∷ inherent ∷ validate_unsigned ∷ []
parts grandpa = module_ ∷ call ∷ storage ∷ config ∷ event ∷ validate_unsigned ∷ []
parts im_online = module_ ∷ call ∷ storage ∷ event ∷ validate_unsigned ∷ config ∷ []
parts authority_discovery = module_ ∷ call ∷ config ∷ []
parts datalog = module_ ∷ call ∷ storage ∷ event ∷ []
parts sudo = module_ ∷ call ∷ storage ∷ event ∷ config ∷ []

-- ===== src/Runtime/Pallets/Traits/Consensus.antt =====
-- node/runtime/src/lib.rs: the associated types of the pallets for sessions, staking, block production
-- and finality.
use ipci_blockchain.Prelude.{List, [], ◌∷◌}
use ipci_blockchain.Runtime.Pallets.{Pallet}
use ipci_blockchain.Runtime.Parameters
use ipci_blockchain.Runtime.Pallets.Traits.{
  Binding, ◌:=◌, nothing, runtime, event, call, value, modules, item, balances_module,
}

-- `pallet_babe::Trait`
abbrev pub babe_trait : List Binding
babe_trait =
    ("EpochDuration" := value Parameters.epoch_duration)
    ∷ ("ExpectedBlockTime" := value Parameters.expected_block_time)
    ∷ ("EpochChangeTrigger" := item "pallet_babe::ExternalTrigger")
    ∷ ("KeyOwnerProofSystem" := modules (Pallet.historical ∷ []))
    ∷ ("KeyOwnerProof"
        := item
            "<Self::KeyOwnerProofSystem as KeyOwnerProofSystem<(KeyTypeId, pallet_babe::AuthorityId)>>::Proof")
    ∷ ("KeyOwnerIdentification"
        := item
            "<Self::KeyOwnerProofSystem as KeyOwnerProofSystem<(KeyTypeId, pallet_babe::AuthorityId)>>::IdentificationTuple")
    ∷ ("HandleEquivocation"
        := item "pallet_babe::EquivocationHandler<Self::KeyOwnerIdentification, Offences>")
    ∷ ("WeightInfo" := nothing)
    ∷ []

-- `pallet_authorship::Trait`
abbrev pub authorship_trait : List Binding
authorship_trait =
    ("FindAuthor" := item "pallet_session::FindAccountFromAuthorIndex<Self, Babe>")
    ∷ ("UncleGenerations" := value Parameters.uncle_generations)
    ∷ ("FilterUncle" := nothing)
    ∷ ("EventHandler" := modules (Pallet.staking ∷ Pallet.im_online ∷ []))
    ∷ []

-- `pallet_session::Trait`
abbrev pub session_trait : List Binding
session_trait =
    ("Event" := event)
    ∷ ("ValidatorId" := item "<Self as frame_system::Trait>::AccountId")
    ∷ ("ValidatorIdOf" := item "pallet_staking::StashOf<Self>")
    ∷ ("ShouldEndSession" := modules (Pallet.babe ∷ []))
    ∷ ("NextSessionRotation" := modules (Pallet.babe ∷ []))
    ∷ ("SessionManager" := item "pallet_session::historical::NoteHistoricalRoot<Self, Staking>")
    ∷ ("SessionHandler" := item "<SessionKeys as OpaqueKeys>::KeyTypeIdProviders")
    ∷ ("Keys" := item "SessionKeys")
    ∷ ("DisabledValidatorsThreshold" := value Parameters.disabled_validators_threshold)
    ∷ ("WeightInfo" := nothing)
    ∷ []

-- `SessionKeys` of the runtime: the pallets whose keys it has, in its order
abbrev pub session_key_pallets : List Pallet
session_key_pallets =
    Pallet.grandpa ∷ Pallet.babe ∷ Pallet.im_online ∷ Pallet.authority_discovery ∷ []

-- `pallet_session::historical::Trait`
abbrev pub historical_trait : List Binding
historical_trait =
    ("FullIdentification" := item "pallet_staking::Exposure<AccountId, Balance>")
    ∷ ("FullIdentificationOf" := item "pallet_staking::ExposureOf<Runtime>")
    ∷ []

-- `pallet_staking::Trait`
abbrev pub staking_trait : List Binding
staking_trait =
    ("Currency" := balances_module)
    ∷ ("UnixTime" := modules (Pallet.timestamp ∷ []))
    ∷ ("CurrencyToVote" := item "CurrencyToVoteHandler")
    ∷ ("RewardRemainder" := nothing)
    ∷ ("Event" := event)
    ∷ ("Slash" := nothing)
    ∷ ("Reward" := nothing)
    ∷ ("SessionsPerEra" := value Parameters.sessions_per_era)
    ∷ ("BondingDuration" := value Parameters.bonding_duration)
    ∷ ("SlashDeferDuration" := value Parameters.slash_defer_duration)
    ∷ ("SlashCancelOrigin"
        := item "frame_system::EnsureRoot<<Self as frame_system::Trait>::AccountId>")
    ∷ ("SessionInterface" := runtime)
    ∷ ("RewardCurve" := item "RewardCurve")
    ∷ ("NextNewSession" := modules (Pallet.session ∷ []))
    ∷ ("ElectionLookahead" := value Parameters.election_lookahead)
    ∷ ("Call" := call)
    ∷ ("MaxIterations" := value Parameters.max_iterations)
    ∷ ("MinSolutionScoreBump" := item "MinSolutionScoreBump")
    ∷ ("MaxNominatorRewardedPerValidator" := value Parameters.max_nominator_rewarded_per_validator)
    ∷ ("UnsignedPriority" := value Parameters.staking_unsigned_priority)
    ∷ ("WeightInfo" := nothing)
    ∷ []

-- `pallet_im_online::Trait`
abbrev pub im_online_trait : List Binding
im_online_trait =
    ("AuthorityId" := item "ImOnlineId")
    ∷ ("Event" := event)
    ∷ ("SessionDuration" := value Parameters.session_duration)
    ∷ ("ReportUnresponsiveness" := modules (Pallet.offences ∷ []))
    ∷ ("UnsignedPriority" := value Parameters.im_online_unsigned_priority)
    ∷ ("WeightInfo" := nothing)
    ∷ []

-- `pallet_grandpa::Trait`
abbrev pub grandpa_trait : List Binding
grandpa_trait =
    ("Event" := event)
    ∷ ("Call" := call)
    ∷ ("KeyOwnerProofSystem" := modules (Pallet.historical ∷ []))
    ∷ ("KeyOwnerProof"
        := item "<Self::KeyOwnerProofSystem as KeyOwnerProofSystem<(KeyTypeId, GrandpaId)>>::Proof")
    ∷ ("KeyOwnerIdentification"
        := item
            "<Self::KeyOwnerProofSystem as KeyOwnerProofSystem<(KeyTypeId, GrandpaId)>>::IdentificationTuple")
    ∷ ("HandleEquivocation"
        := item "pallet_grandpa::EquivocationHandler<Self::KeyOwnerIdentification, Offences>")
    ∷ ("WeightInfo" := nothing)
    ∷ []

-- ===== src/Node/ChainSpec/Genesis.antt =====
-- The genesis state of `testnet_genesis` (node/cli/src/chain_spec.rs): how its parts agree.
use native.Mathlib.Nat.{suc-mul, add_comm}
use ipci_blockchain.Prelude.{
  ℕ, suc, ◌+◌, ◌*◌, ◌^◌, ◌<◌, ◌≤◌, ◌≡◌, refl, ap, ap₂, sym, ◌∙◌, Option, some, List, [], ◌∷◌, ◌++◌,
  map, length, arith,
}
use ipci_blockchain.Runtime.Parameters.{existential_deposit}
use ipci_blockchain.Node.ChainSpec.{
  Keys, Authority, FromString, GenesisConfig, endowment, stake, endowed_accounts, genesis,
  testnet_genesis,
}

pub map-map {ℓ κ μ} :
    {A : Type ℓ} {B : Type κ} {C : Type μ} (f : A → B) (g : B → C) (xs : List A)
    → map g (map f xs) ≡ map (λ x. g (f x)) xs
map-map f g [] = refl
map-map f g (x ∷ xs) = ap (λ ys. g (f x) ∷ ys) (map-map f g xs)

length-map {ℓ κ} :
    {A : Type ℓ} {B : Type κ} (f : A → B) (xs : List A) → length (map f xs) ≡ length xs
length-map f [] = refl
length-map f (x ∷ xs) = ap suc (length-map f xs)

-- the sum of the amounts of a list of balances
abbrev pub issuance {ℓ} : {A : Type ℓ} → List (A × ℕ) → ℕ
issuance [] = 0
issuance ((a, n) ∷ bs) = n + issuance bs

issuance-map {ℓ κ} :
    {A : Type ℓ} {B : Type κ} (f : A → B) (n : ℕ) (xs : List A)
    → issuance (map (λ x. (f x, n)) xs) ≡ length xs * n
issuance-map f n [] = omega arith
issuance-map f n (x ∷ xs) =
    ap (λ m. n + m) (issuance-map f n xs) ∙ add_comm n (length xs * n) ∙ sym (suc-mul (length xs) n)

issuance-append {ℓ} :
    {A : Type ℓ} (xs ys : List (A × ℕ)) → issuance (xs ++ ys) ≡ issuance xs + issuance ys
issuance-append [] ys = omega arith
issuance-append ((a, n) ∷ xs) ys = omega (arith, issuance-append xs ys)

-- no account has less than what keeps it alive
abbrev pub Viable {ℓ} : {A : Type ℓ} → List (A × ℕ) → Type 0
Viable [] = Unit
Viable ((a, n) ∷ bs) = (existential_deposit ≤ n) × Viable bs

Viable-append {ℓ} : {A : Type ℓ} (xs ys : List (A × ℕ)) → Viable xs → Viable ys → Viable (xs ++ ys)
Viable-append [] ys hx hy = hy
Viable-append ((a, n) ∷ xs) ys hx hy = (hx.0, Viable-append xs ys hx.1 hy)

Viable-map {ℓ κ} :
    {A : Type ℓ} {B : Type κ} (f : A → B) (n : ℕ) (xs : List A)
    → existential_deposit ≤ n
    → Viable (map (λ x. (f x, n)) xs)
Viable-map f n [] h = tt
Viable-map f n (x ∷ xs) h = (h, Viable-map f n xs h)

-- the stash of a staker with its bond
abbrev pub bonded : {AccountId : Type 0} → AccountId × AccountId × ℕ → AccountId × ℕ
bonded (stash, controller, bond) = (stash, bond)

abbrev pub staker_stash : {AccountId : Type 0} → AccountId × AccountId × ℕ → AccountId
staker_stash (stash, controller, bond) = stash

abbrev staker : {k : Keys} → Authority k → k.AccountId × k.AccountId × ℕ
staker x = (x.stash, x.controller, stake)

module _ {k : Keys} where
  -- What a genesis with the endowed accounts must satisfy.
  pub record IsConsistent (accounts : List k.AccountId) (g : GenesisConfig k) : Type 0 where
    -- every bond is backed by an entry of the balances, beside the endowments
    pub backed : g.balances ≡ map (λ a. (a, endowment)) accounts ++ map bonded g.staking.stakers
    -- the validators have session keys, in the order of the stakers
    pub keyed : map (λ s. s.0) g.session_keys ≡ map staker_stash g.staking.stakers
    -- each validator runs its session under its own stash
    pub own_keys : map (λ s. s.1) g.session_keys ≡ map (λ s. s.0) g.session_keys
    pub invulnerable : g.staking.invulnerables ≡ map staker_stash g.staking.stakers
    pub minimum : g.staking.minimum_validator_count ≡ length g.staking.stakers
    pub wanted : g.staking.validator_count ≡ 2 * length g.staking.stakers
    pub issued :
        issuance g.balances ≡ length accounts * endowment + length g.staking.stakers * stake
    -- no account of the balances is below the existential deposit of the runtime
    pub viable : Viable g.balances

  module _ (f : FromString k) (wasm : List ℕ) (initial_authorities : List (Authority k))
      (root_key : k.AccountId) (endowed : Option (List k.AccountId)) (accounts : List k.AccountId)
      (endows : endowed_accounts f endowed ≡ some accounts) where
    pub testnet_genesis_returns :
        testnet_genesis f wasm initial_authorities root_key endowed
        ≡ some (genesis wasm initial_authorities root_key accounts)
    unfolding testnet_genesis
    testnet_genesis_returns = rw endows

    genesis-IsConsistent :
        length initial_authorities < 2 ^ 31
        → IsConsistent accounts (genesis wasm initial_authorities root_key accounts)
    genesis-IsConsistent few = record {
      backed =
          ap (λ bs. map (λ a. (a, endowment)) accounts ++ bs)
            (sym (map-map _ bonded initial_authorities));
      keyed = map-map _ _ initial_authorities ∙ sym (map-map _ _ initial_authorities);
      own_keys = map-map _ _ initial_authorities ∙ sym (map-map _ _ initial_authorities);
      invulnerable = sym (map-map _ staker_stash initial_authorities);
      minimum = omega (arith, length-map staker initial_authorities);
      wanted = omega (arith, length-map staker initial_authorities);
      issued =
          issuance-append (map (λ a. (a, endowment)) accounts)
            (map (λ x. (x.stash, stake)) initial_authorities)
          ∙ ap₂ (λ m n. m + n) (issuance-map (λ a. a) endowment accounts)
              (issuance-map (λ x. x.stash) stake initial_authorities)
          ∙ ap (λ n. length accounts * endowment + n * stake)
              (sym (length-map staker initial_authorities));
      viable =
          Viable-append (map (λ a. (a, endowment)) accounts)
            (map (λ x. (x.stash, stake)) initial_authorities)
            (Viable-map (λ a. a) endowment accounts (omega arith))
            (Viable-map (λ x. x.stash) stake initial_authorities (omega arith));
    }

    -- When the endowed accounts are found, `testnet_genesis` returns a genesis for fewer than 2^31
    -- authorities in which each bond has its entry in the balances, the validators have session keys and
    -- are invulnerable, the wanted number of validators is twice the least, which is their number, the
    -- issuance is the sum of the endowments and the bonds, and no entry of the balances is below the
    -- existential deposit of the runtime.
    pub testnet_genesis-IsConsistent :
        length initial_authorities < 2 ^ 31
        → (g : GenesisConfig k) × (testnet_genesis f wasm initial_authorities root_key endowed
            ≡ some g)
          × IsConsistent accounts g
    testnet_genesis-IsConsistent few = (
      genesis wasm initial_authorities root_key accounts,
      testnet_genesis_returns,
      genesis-IsConsistent few,
    )

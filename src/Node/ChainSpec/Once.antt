-- ===== src/Node/ChainSpec/Once.antt =====
-- Whether the genesis of `testnet_genesis` (node/cli/src/chain_spec.rs) lists an account once.
use mathlib.Core.List.{Mem, Nodup, Nodup-append, mem-map_of_mem}
use ipci_blockchain.Prelude.{
  ◌≡◌, ◌↔◌, refl, ap, ap₂, sym, ◌∙◌, subst, ℕ, Option, some, List, [], ◌∷◌, ◌++◌, map,
}
use ipci_blockchain.Node.ChainSpec.{
  Keys, Authority, FromString, GenesisConfig, endowment, endowed_accounts, genesis, testnet_genesis,
}
use ipci_blockchain.Node.ChainSpec.Genesis.{map-map, testnet_genesis_returns}

map-append {ℓ κ} :
    {A : Type ℓ} {B : Type κ} (f : A → B) (xs ys : List A) → map f (xs ++ ys) ≡ map f xs ++ map f ys
map-append f [] ys = refl
map-append f (x ∷ xs) ys = ap (λ zs. f x ∷ zs) (map-append f xs ys)

map-id {ℓ} : {A : Type ℓ} (xs : List A) → map (λ x. x) xs ≡ xs
map-id [] = refl
map-id (x ∷ xs) = ap (λ ys. x ∷ ys) (map-id xs)

-- the stashes of the initial authorities
abbrev pub stashes : {k : Keys} → List (Authority k) → List k.AccountId
stashes = map (λ x. x.stash)

-- the accounts of the balances, with their repetitions
abbrev pub holders : {k : Keys} → GenesisConfig k → List k.AccountId
holders g = map (λ b. b.0) g.balances

-- No account is endowed twice or the stash of two authorities, and none is both.
abbrev pub Distinct : {k : Keys} → List k.AccountId → List (Authority k) → Type 0
Distinct {k = k} accounts authorities =
    Nodup accounts
    × Nodup (stashes {k = k} authorities)
    × ((a : k.AccountId) → Mem a accounts → ¬ Mem a (stashes {k = k} authorities))

module _ {k : Keys} (f : FromString k) (wasm : List ℕ) (initial_authorities : List (Authority k))
    (root_key : k.AccountId) (endowed : Option (List k.AccountId)) (accounts : List k.AccountId)
    (endows : endowed_accounts f endowed ≡ some accounts) where
  holders-eq :
      holders {k = k} (genesis wasm initial_authorities root_key accounts)
      ≡ accounts ++ stashes {k = k} initial_authorities
  holders-eq =
      map-append _ (map (λ a. (a, endowment)) accounts) _
      ∙ ap₂ (λ bs cs. bs ++ cs) (map-map _ _ accounts ∙ map-id accounts)
          (map-map _ _ initial_authorities)

  -- When the endowed accounts are found, the balances of the genesis that `testnet_genesis` returns list
  -- each account once exactly when no account is endowed twice or the stash of two authorities, and none
  -- is both endowed and the stash of an authority.
  pub testnet_genesis-once_iff :
      (g : GenesisConfig k) × (testnet_genesis f wasm initial_authorities root_key endowed ≡ some g)
      × (Nodup (holders {k = k} g) ↔ Distinct {k = k} accounts initial_authorities)
  testnet_genesis-once_iff = (
    genesis wasm initial_authorities root_key accounts,
    testnet_genesis_returns f wasm initial_authorities root_key endowed accounts endows,
    (
      λ once. Nodup-append.0 (subst Nodup holders-eq once),
      λ distinct. subst Nodup (sym holders-eq) (Nodup-append.1 distinct),
    ),
  )

  -- When an endowed account is the stash of an authority, the genesis that `testnet_genesis` returns
  -- lists that account more than once in the balances.
  pub testnet_genesis-repeats :
      (x : Authority k)
      → Mem x initial_authorities
      → Mem x.stash accounts
      → (g : GenesisConfig k) × (testnet_genesis f wasm initial_authorities root_key endowed
          ≡ some g)
        × (¬ Nodup (holders {k = k} g))
  testnet_genesis-repeats x is_authority is_endowed =
      let (g, returned, once) = testnet_genesis-once_iff in
      (
        g,
        returned,
        λ h. (once.0 h).2 x.stash is_endowed (mem-map_of_mem (λ y. y.stash) is_authority),
      )

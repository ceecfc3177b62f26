-- ===== src/Node/ChainSpec/Repeats.antt =====
-- The genesis of the development chain (node/cli/src/chain_spec.rs), whose authority is endowed as well.
use mathlib.Core.List.{Mem, Nodup, mem-cons_self, mem-cons_of_mem}
use mathlib.Core.Option.{some-injective}
use ipci_blockchain.Prelude.{
  ℕ, ◌≡◌, refl, sym, ◌∙◌, subst, Option, none, some, List, [], ◌∷◌, ◌++◌, arith,
}
use ipci_blockchain.Prelude.Options.{◌>>=◌}
use ipci_blockchain.Text.{Text, codes}
use ipci_blockchain.Node.ChainSpec.{
  Keys, Authority, FromString, GenesisConfig, get_from_seed, accounts_from_seeds, genesis,
  endowed_accounts, authority_keys_from_seed, testnet_genesis, development_config_genesis,
}
use ipci_blockchain.Node.ChainSpec.Once.{holders, testnet_genesis-repeats}

-- What an optional result that is there was made of.
bind-some {ℓ κ} :
    {A : Type ℓ} {B : Type κ} (o : Option A) (f : A → Option B) (b : B)
    → (o >>= f) ≡ some b
    → (a : A) × (o ≡ some a) × (f a ≡ some b)
bind-some none f b h = cc h
bind-some (some a) f b h = (a, refl, h)

-- the account of a seed is among those of a list with the seed in it
Mem-accounts_from_seeds :
    {A : Type 0} (from_string : Text → Option A) (before after : List Text) (seed : Text) (a : A)
    (accounts : List A)
    → get_from_seed from_string seed ≡ some a
    → accounts_from_seeds from_string (before ++ seed ∷ after) ≡ some accounts
    → Mem a accounts
Mem-accounts_from_seeds from_string [] after seed a accounts is h =
    let (y, first, rest) = bind-some (get_from_seed from_string seed) _ accounts h in
    let (l, others, made) = bind-some (accounts_from_seeds from_string after) _ accounts rest in
    let same : y ≡ a = cc in
    subst (λ m. Mem a m) (some-injective _ _ made)
      (subst (λ b. Mem a (b ∷ l)) (sym same) mem-cons_self)
Mem-accounts_from_seeds from_string (x ∷ before) after seed a accounts is h =
    let (y, first, rest) = bind-some (get_from_seed from_string x) _ accounts h in
    let (l, others, made) =
      bind-some (accounts_from_seeds from_string (before ++ seed ∷ after)) _ accounts rest in
    subst (λ m. Mem a m) (some-injective _ _ made)
      (mem-cons_of_mem y (Mem-accounts_from_seeds from_string before after seed a l is others))

module _ {k : Keys} (f : FromString k) where
  stash_of_authority :
      (seed : Text) (x : Authority k)
      → authority_keys_from_seed f seed ≡ some x
      → get_from_seed f.account (seed ++ codes "//stash") ≡ some x.stash
  unfolding authority_keys_from_seed
  stash_of_authority seed x h = ground arith

  endowed_of :
      (wasm : List ℕ) (authorities : List (Authority k)) (root : k.AccountId) (g : GenesisConfig k)
      → testnet_genesis f wasm authorities root none ≡ some g
      → (accounts : List k.AccountId) × (endowed_accounts f none ≡ some accounts)
        × (some (genesis wasm authorities root accounts) ≡ some g)
  unfolding testnet_genesis
  endowed_of wasm authorities root g made = bind-some (endowed_accounts f none) _ g made

  -- the seeds before and behind the one of the stash of Alice
  abbrev seeds_before : List Text
  seeds_before =
      codes "Alice"
      ∷ codes "Bob"
      ∷ codes "Charlie"
      ∷ codes "Dave"
      ∷ codes "Eve"
      ∷ codes "Ferdie"
      ∷ []

  abbrev seeds_after : List Text
  seeds_after =
      codes "Bob//stash"
      ∷ codes "Charlie//stash"
      ∷ codes "Dave//stash"
      ∷ codes "Eve//stash"
      ∷ codes "Ferdie//stash"
      ∷ []

  -- Whatever keys the seeds stand for, if the development chain has a genesis, its balances list an
  -- account more than once.
  pub development_config_genesis-repeats :
      (wasm : List ℕ) (g : GenesisConfig k)
      → development_config_genesis f wasm ≡ some g
      → ¬ Nodup (holders {k = k} g)
  unfolding development_config_genesis endowed_accounts
  development_config_genesis-repeats wasm g found =
      let (alice, is_alice, rooted) =
        bind-some (authority_keys_from_seed f (codes "Alice")) _ g found in
      let (root, is_root, made) = bind-some (get_from_seed f.account (codes "Alice")) _ g rooted in
      let (accounts, endows, whole) = endowed_of wasm (alice ∷ []) root g made in
      let (g', returned, repeated) =
        testnet_genesis-repeats f wasm (alice ∷ []) root none accounts endows alice mem-cons_self (
          Mem-accounts_from_seeds f.account seeds_before seeds_after (codes "Alice//stash")
            alice.stash accounts (stash_of_authority (codes "Alice") alice is_alice) endows) in
      subst (λ x. ¬ Nodup (holders {k = k} x)) (some-injective _ _ (sym returned ∙ made)) repeated

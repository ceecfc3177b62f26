-- ===== src/Node/Rpc/Served.antt =====
-- Which methods the RPC handlers of node/rpc/src/lib.rs answer, and by what.
use ipci_blockchain.Prelude.{◌≡◌, ◌≢◌, ◌⊎◌, ◌↔◌, refl, Option, none, some, Option-cases, inl, inr}
use ipci_blockchain.Prelude.Options.{or_else}
use ipci_blockchain.Text.{Text}
use ipci_blockchain.Node.Rpc.{
  Types, FullDeps, LightDeps, Delegate, IoHandler, Extensions, create_full, create_light,
}

-- the extensions of a full node
pub data Api : Type 0 where
  system payment babe grandpa : Api

or_else-some :
    {A : Type 0} (a b : Option A) (m : A) → or_else a b ≡ some m → (a ≡ some m) ⊎ (b ≡ some m)
or_else-some (some x) b m h = inl h
or_else-some none b m h = inr h

or_else-none : {A : Type 0} (a : Option A) → or_else a none ≡ a
or_else-none (some a) = refl
or_else-none none = refl

-- The first of four options is a value exactly when one of them is that value, where at most one of
-- them is a value.
module _ {A : Type 0} (found : Api → Option A)
    (distinct : (a b : Api) (m n : A) → found a ≡ some m → found b ≡ some n → a ≡ b) where
  missing : (a b : Api) (m : A) → a ≢ b → found a ≡ some m → found b ≡ none
  missing a b m ne h = elim (Option-cases (found b)) [
    | inl no_method ↦ no_method
    | inr (n, other) ↦ absurd (ne (distinct a b m n h other))
  ]

  abbrev first : Option A
  first =
      or_else (found Api.grandpa)
        (or_else (found Api.babe) (or_else (found Api.payment) (or_else (found Api.system) none)))

  first-found : (a : Api) (m : A) → found a ≡ some m → first ≡ some m
  first-found Api.grandpa m h = rw h
  first-found Api.babe m h = rw (missing Api.babe Api.grandpa m (λ e. cc) h, h)
  first-found Api.payment m h =
      rw (
        missing Api.payment Api.grandpa m (λ e. cc) h,
        missing Api.payment Api.babe m (λ e. cc) h,
        h,
      )
  first-found Api.system m h = rw (
    missing Api.system Api.grandpa m (λ e. cc) h,
    missing Api.system Api.babe m (λ e. cc) h,
    missing Api.system Api.payment m (λ e. cc) h,
    h,
  )

  found_of_first : (m : A) → first ≡ some m → (a : Api) × (found a ≡ some m)
  found_of_first m h = elim (or_else-some (found Api.grandpa) _ m h) [
    | inl e ↦ (Api.grandpa, e)
    | inr others ↦ elim (or_else-some (found Api.babe) _ m others) [
      | inl e ↦ (Api.babe, e)
      | inr rest ↦ elim (or_else-some (found Api.payment) _ m rest) [
        | inl e ↦ (Api.payment, e)
        | inr last ↦ elim (or_else-some (found Api.system) none m last) [
          | inl e ↦ (Api.system, e)
          | inr nothing ↦ cc nothing
        ]
      ]
    ]
  ]

  pub first_iff : (m : A) → (first ≡ some m) ↔ ((a : Api) × (found a ≡ some m))
  first_iff m = (found_of_first m, λ (a, h). first-found a m h)

module _ {T : Types} {Method : Type 0} (h : IoHandler Method) (e : Extensions T Method) where
  -- an extension of a full node, made of the node's parts
  abbrev pub extension : FullDeps T → Api → Delegate Method
  extension deps system = e.full_system deps.client deps.pool deps.deny_unsafe
  extension deps payment = e.transaction_payment deps.client
  extension deps babe =
      e.babe_rpc deps.client deps.babe.shared_epoch_changes deps.babe.keystore deps.babe.babe_config
        deps.select_chain deps.deny_unsafe
  extension deps grandpa =
      e.grandpa_rpc deps.grandpa.shared_authority_set deps.grandpa.shared_voter_state
        deps.grandpa.justification_stream deps.grandpa.subscription_executor
        deps.grandpa.finality_provider

  -- no two extensions have a method of the same name
  abbrev pub Distinct : FullDeps T → Type 0
  Distinct deps =
      (name : Text) (a b : Api) (m n : Method)
      → extension deps a name ≡ some m
      → extension deps b name ≡ some n
      → a ≡ b

  -- Where no two of the extensions for the system, the payments, BABE and GRANDPA have a method of the
  -- same name, the handler of a full node has a method under a name exactly when one of them has it:
  -- none is lost and there is no other.
  pub create_full-serves :
      (deps : FullDeps T)
      → Distinct deps
      → (name : Text) (m : Method)
      → (h.get (create_full h e deps) name ≡ some m)
        ↔ ((a : Api) × (extension deps a name ≡ some m))
  unfolding create_full
  create_full-serves deps distinct name m =
      rw (h.get-extend_with, h.get-extend_with, h.get-extend_with, h.get-extend_with, h.get-default)
        (first_iff (λ a. extension deps a name) (λ a b m n p q. distinct name a b m n p q) m)

  -- The handler of a light node has exactly the methods of the light system extension.
  pub create_light-serves :
      (deps : LightDeps T) (name : Text)
      → h.get (create_light h e deps) name
        ≡ e.light_system deps.client deps.remote_blockchain deps.fetcher deps.pool name
  unfolding create_light
  create_light-serves deps name = rw (h.get-extend_with, h.get-default) (or_else-none _)

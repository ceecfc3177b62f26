-- ===== src/Node/Service/Started.antt =====
-- When the network of a full node is started (node/cli/src/service.rs).
use mathlib.Core.Bool.{or_assoc}
use ipci_blockchain.Prelude.{
  Bool, true, false, not, ◌&&◌, ◌||◌, Option, none, some, List, [], ◌∷◌, ◌++◌, ◌≡◌, refl, ap, sym,
  ◌∙◌, subst,
}
use ipci_blockchain.Node.Service.{
  Configuration, Role, authority, sentry, full, light, new_full_base, grandpa_config,
}
use ipci_blockchain.Node.Service.Steps.{
  Failures, Step, GrandpaConfig, Ended, completed, failed, panicked,
}
use ipci_blockchain.Node.Service.Execute.{Plan, only, execute, stop_on}
use ipci_blockchain.Node.Service.Plan.{full_plan, tasks_plan, workers_plan, new_full_base-plan}

abbrev pub is_start_network : {Address : Type 0} → Step Address → Bool
is_start_network Step.start_network = true
is_start_network _ = false

abbrev pub is_completed : {ServiceError : Type 0} → Ended ServiceError → Bool
is_completed completed = true
is_completed (failed e) = false
is_completed panicked = false

abbrev pub any {ℓ} : {A : Type ℓ} → (A → Bool) → List A → Bool
any t [] = false
any t (x ∷ xs) = t x || any t xs

pub any-append {ℓ} :
    {A : Type ℓ} (t : A → Bool) (xs ys : List A) → any t (xs ++ ys) ≡ (any t xs || any t ys)
any-append t [] ys = refl
any-append t (x ∷ xs) ys = ap (λ b. t x || b) (any-append t xs ys) ∙ sym (or_assoc (t x) _ _)

-- the network is the last call of a plan and no earlier one, and does not fail
abbrev ends_with_network : {Address : Type 0} → Plan Address → Bool
ends_with_network [] = false
ends_with_network ((b, s) ∷ []) = not b && is_start_network s
ends_with_network ((b, s) ∷ x ∷ p) = not (is_start_network s) && ends_with_network (x ∷ p)

not-&& : (a b : Bool) → not a && b ≡ true → (a ≡ false) × (b ≡ true)
not-&& false b h = (refl, h)
not-&& true b h = cc h

-- a plan without the network
abbrev pub is_silent : {Address : Type 0} → Plan Address → Bool
is_silent [] = true
is_silent ((b, s) ∷ p) = not (is_start_network s) && is_silent p

module _ {Address ServiceError : Type 0} where
  stop_on-network :
      (o : Option ServiceError) (s : Step Address) (rest : Ended ServiceError × List (Step Address))
      → is_start_network s ≡ false
      → any is_start_network (rest.1) ≡ is_completed (rest.0)
      → any is_start_network (stop_on o s rest).1 ≡ is_completed (stop_on o s rest).0
  stop_on-network none s rest h ih = ap (λ b. b || any is_start_network (rest.1)) h ∙ ih
  stop_on-network (some e) s rest h ih = ap (λ b. b || false) h

  execute-network :
      (fails : Failures Address ServiceError) (p : Plan Address)
      → ends_with_network p ≡ true
      → any is_start_network (execute fails p).1 ≡ is_completed (execute fails p).0
  unfolding execute
  execute-network fails [] h = h
  execute-network fails ((false, s) ∷ []) h = ap (λ b. b || false) h
  execute-network fails ((true, s) ∷ []) h = cc h
  execute-network fails ((false, s) ∷ x ∷ p) h =
      stop_on-network none s (execute fails (x ∷ p)) (not-&& _ _ h).0
        (execute-network fails (x ∷ p) ((not-&& _ _ h).1))
  execute-network fails ((true, s) ∷ x ∷ p) h =
      stop_on-network (fails s) s (execute fails (x ∷ p)) (not-&& _ _ h).0
        (execute-network fails (x ∷ p) ((not-&& _ _ h).1))

  stop_on-silent :
      (o : Option ServiceError) (s : Step Address) (rest : Ended ServiceError × List (Step Address))
      → is_start_network s ≡ false
      → any is_start_network (rest.1) ≡ false
      → any is_start_network (stop_on o s rest).1 ≡ false
  stop_on-silent none s rest h ih = ap (λ b. b || any is_start_network (rest.1)) h ∙ ih
  stop_on-silent (some e) s rest h ih = ap (λ b. b || false) h

  pub execute-silent :
      (fails : Failures Address ServiceError) (p : Plan Address)
      → is_silent p ≡ true
      → any is_start_network (execute fails p).1 ≡ false
  unfolding execute
  execute-silent fails [] h = refl
  execute-silent fails ((false, s) ∷ p) h =
      stop_on-silent none s (execute fails p) (not-&& _ _ h).0
        (execute-silent fails p (not-&& _ _ h).1)
  execute-silent fails ((true, s) ∷ p) h =
      stop_on-silent (fails s) s (execute fails p) (not-&& _ _ h).0
        (execute-silent fails p (not-&& _ _ h).1)

full_plan-network :
    {Address : Type 0} (enabled force_authoring disabled : Bool) (role : Role Address)
    (config : GrandpaConfig)
    → ends_with_network (workers_plan enabled (tasks_plan force_authoring role disabled config))
      ≡ true
unfolding only
full_plan-network true f true full config = refl
full_plan-network true f true light config = refl
full_plan-network true f true sentry config = refl
full_plan-network true f true (authority ss) config = refl
full_plan-network true f false full config = refl
full_plan-network true f false light config = refl
full_plan-network true f false sentry config = refl
full_plan-network true f false (authority ss) config = refl
full_plan-network false f true full config = refl
full_plan-network false f true light config = refl
full_plan-network false f true sentry config = refl
full_plan-network false f true (authority ss) config = refl
full_plan-network false f false full config = refl
full_plan-network false f false light config = refl
full_plan-network false f false sentry config = refl
full_plan-network false f false (authority ss) config = refl

-- Whatever fails, a full node starts its network exactly when its assembly completes.
pub new_full_base-network :
    {Address ServiceError : Type 0} (config : Configuration Address)
    (fails : Failures Address ServiceError)
    → any is_start_network (new_full_base ServiceError config fails).1
      ≡ is_completed (new_full_base ServiceError config fails).0
new_full_base-network config fails =
    subst (λ r. any is_start_network (r.1) ≡ is_completed (r.0))
      (sym (new_full_base-plan config fails))
      (execute-network fails (full_plan config) (
        full_plan-network config.offchain_worker_enabled config.force_authoring
          config.disable_grandpa config.role (grandpa_config config)))

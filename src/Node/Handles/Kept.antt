-- ===== src/Node/Handles/Kept.antt =====
-- What is kept of the calls that a part of the assembly of node/cli/src/service.rs makes before it returns.
use mathlib.Core.List.{append_assoc, append-nil}
use ipci_blockchain.Prelude.{List, [], ◌∷◌, ◌++◌, ◌≡◌, refl, sym, ap, ◌∙◌, subst}
use ipci_blockchain.Text.{Result, ok, err}
use ipci_blockchain.Node.Handles.Calls.{Kept, Keeps, KeepsMade}
use ipci_blockchain.Node.Handles.Effects
use ipci_blockchain.Node.Handles.Effects.{Outcome, M, chain, ◌>>=◌, pure, try, make, when}

-- the one call of `call`, with what was returned
abbrev Once : {A T : Type 0} → (A → T) → A → List T → Type 0
Once call a made = made ≡ call a ∷ []

module _ {State E T : Type 0} (calls : State → List T) (fail : E → T) where
  -- The part returned, and that and what was kept since the state `s` satisfy `Q`; or it failed, with the
  -- error of the call that was kept last. It did not panic.
  abbrev pub Satisfies : {A : Type 0} → (A → List T → Type 0) → State → Outcome E A × State → Type 0
  Satisfies Q s (Outcome.returned a, s') = (made : List T) × (calls s' ≡ calls s ++ made) × Q a made
  Satisfies Q s (Outcome.failed e, s') =
      (made : List T) × (calls s' ≡ calls s ++ (made ++ fail e ∷ []))
  Satisfies Q s (Outcome.panicked, s') = ⊥

  -- so it is from any state
  pub record Leaves {A : Type 0} (m : M State E A) (Q : A → List T → Type 0) : Type 0 where
    pub leaves : (s : State) → Satisfies Q s (m s)

  pub pure-Leaves : {A : Type 0} (a : A) {Q : A → List T → Type 0} → Q a [] → Leaves (pure a) Q
  unfolding pure
  pure-Leaves a {Q} h = record { leaves = λ s. ([], sym (append-nil (calls s)), h) }

  after :
      {B : Type 0} (Q : B → List T → Type 0) (s s' : State) (made : List T)
      (y : Outcome E B × State)
      → calls s' ≡ calls s ++ made
      → Satisfies (λ b rest. Q b (made ++ rest)) s' y
      → Satisfies Q s y
  after Q s s' made (Outcome.returned b, s'') h (rest, more, q) =
      (made ++ rest, more ∙ ap (λ l. l ++ rest) h ∙ append_assoc (calls s) made rest, q)
  after Q s s' made (Outcome.failed e, s'') h (rest, more) = (
    made ++ rest,
    more
        ∙ ap (λ l. l ++ (rest ++ fail e ∷ [])) h
        ∙ append_assoc (calls s) made (rest ++ fail e ∷ [])
        ∙ ap (λ l. calls s ++ l) (sym (append_assoc made rest (fail e ∷ []))),
  )
  after Q s s' made (Outcome.panicked, s'') h q = q

  module _ {A B : Type 0} (P : A → List T → Type 0) (Q : B → List T → Type 0) {g : A → M State E B}
      (each : (a : A) (made : List T)
        → P a made
        → Leaves (g a) (λ b rest. Q b (made ++ rest))) where
    chain-Satisfies :
        (s : State) (x : Outcome E A × State) → Satisfies P s x → Satisfies Q s (chain x g)
    chain-Satisfies s (Outcome.returned a, s') (made, kept, p) =
        after Q s s' made (g a s') kept ((each a made p).leaves s')
    chain-Satisfies s (Outcome.failed e, s') p = p
    chain-Satisfies s (Outcome.panicked, s') p = p

    pub bind-Leaves : {m : M State E A} → Leaves m P → Leaves (m >>= g) Q
    unfolding ◌>>=◌
    bind-Leaves {m} h = record { leaves = λ s. chain-Satisfies s (m s) (h.leaves s) }

  try-Satisfies :
      {A : Type 0} (call : A → T) (s : State) (x : Result E A × State)
      → Kept calls fail call s x
      → Satisfies (Once call) s (Effects.outcome x)
  try-Satisfies call s (ok a, s') h = (call a ∷ [], h, refl)
  try-Satisfies call s (err e, s') h = ([], h)

  -- a call with `?`, and what is done behind it
  pub try-Leaves :
      {A B : Type 0} (f : State → Result E A × State) (call : A → T) {g : A → M State E B}
      {Q : B → List T → Type 0}
      → Keeps calls fail f call
      → ((a : A) → Leaves (g a) (λ b rest. Q b (call a ∷ rest)))
      → Leaves (try f >>= g) Q
  unfolding try
  try-Leaves f call {g} {Q} k each =
      bind-Leaves (Once call) Q
        (λ a made is. subst (λ l. Leaves (g a) (λ b rest. Q b (l ++ rest))) (sym is) (each a))
        (record { leaves = λ s. try-Satisfies call s (f s) (k.keeps s) })

  pub make-Leaves :
      {A B : Type 0} (f : State → A × State) (call : A → T) {g : A → M State E B}
      {Q : B → List T → Type 0}
      → KeepsMade calls f call
      → ((a : A) → Leaves (g a) (λ b rest. Q b (call a ∷ rest)))
      → Leaves (make f >>= g) Q
  unfolding make
  make-Leaves f call {g} {Q} k each =
      bind-Leaves (Once call) Q
        (λ a made is. subst (λ l. Leaves (g a) (λ b rest. Q b (l ++ rest))) (sym is) (each a))
        (record { leaves = λ s. (call (f s).0 ∷ [], k.keeps s, refl) })

  last-Satisfies :
      {A : Type 0} (call : A → T) (Q : A → List T → Type 0)
      → ((a : A) → Q a (call a ∷ []))
      → (s : State) (x : Result E A × State) → Kept calls fail call s x
      → Satisfies Q s (Effects.outcome x)
  last-Satisfies call Q each s (ok a, s') h = (call a ∷ [], h, each a)
  last-Satisfies call Q each s (err e, s') h = ([], h)

  -- the last call of a part
  pub try_last-Leaves :
      {A : Type 0} (f : State → Result E A × State) (call : A → T) {Q : A → List T → Type 0}
      → Keeps calls fail f call
      → ((a : A) → Q a (call a ∷ []))
      → Leaves (try f) Q
  unfolding try
  try_last-Leaves f call {Q} k each = record {
    leaves = λ s. last-Satisfies call Q each s (f s) (k.keeps s);
  }

  pub make_last-Leaves :
      {A : Type 0} (f : State → A × State) (call : A → T) {Q : A → List T → Type 0}
      → KeepsMade calls f call
      → ((a : A) → Q a (call a ∷ []))
      → Leaves (make f) Q
  unfolding make
  make_last-Leaves f call {Q} k each = record {
    leaves = λ s. (call (f s).0 ∷ [], k.keeps s, each (f s).0);
  }

  -- a call of which nothing is kept
  pub silent-Leaves :
      {A : Type 0} (f : State → A × State) {Q : A → List T → Type 0}
      → ((s : State) → calls (f s).1 ≡ calls s)
      → ((a : A) → Q a [])
      → Leaves (make f) Q
  unfolding make
  silent-Leaves f {Q} quiet each = record {
    leaves = λ s. ([], quiet s ∙ sym (append-nil (calls s)), each (f s).0);
  }

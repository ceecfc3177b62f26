-- ===== src/Datalog/Pallet/Old.antt =====
-- The map of pallets/datalog/src/lib.rs with the values of its previous version, which calls remove and
-- nothing writes.
use ipci_blockchain.Prelude.{ℕ, ◌≤◌, ◌≡◌, ◌≢◌, refl, ◌∙◌, some, List, [], ◌∷◌, foldl}
use ipci_blockchain.Datalog.Pallet.{Trait, Result, ok, err, Event, Call, dispatch}
use ipci_blockchain.Datalog.Pallet.Laws.{IsTrait}
use ipci_blockchain.Datalog.Pallet.Outcome.{recorded, cleared, remove_item}
use ipci_blockchain.Datalog.Pallet.Valid.{AllValid}
use ipci_blockchain.Datalog.Pallet.Effect.{
  Effect, too_big, unsigned, records, erases, dispatch-Effect,
}

module _ {State Origin AccountId Moment Record : Type 0}
    (t : Trait State Origin AccountId Moment Record) where
  open t use {ensure_signed, datalog}

  -- the old values of an account are gone, and those of all others are as they were
  abbrev pub DropsOf : AccountId → State → State → Type 0
  DropsOf a s s' =
      (datalog.get s' a ≡ []) × ((b : AccountId) → a ≢ b → datalog.get s' b ≡ datalog.get s b)

  -- What a call does to the old values: those of its signer are dropped if it returns without an error,
  -- and none if it returns an error.
  abbrev pub Drops : Origin → Result (Unit {0}) → State → State → Type 0
  Drops origin (err e) s s' = (b : AccountId) → datalog.get s' b ≡ datalog.get s b
  Drops origin (ok u) s s' = (a : AccountId) × (ensure_signed origin ≡ ok a) × DropsOf a s s'

module _ {State Origin AccountId Moment Record : Type 0}
    (t : Trait State Origin AccountId Moment Record) (laws : IsTrait t) where
  open t use {ensure_signed, window_size, datalog, datalog_index}

  old-recorded :
      (a b : AccountId) (rec : Record) (s : State)
      → datalog.get (recorded t a rec s) b ≡ datalog.get (datalog.remove a s) b
  unfolding recorded
  old-recorded a b rec s =
      rw (laws.index_map.mutate_lem, laws.index_old.get-insert, laws.item_old.get-insert)

  old-removed :
      (a b : AccountId) (l : List ℕ) (s : State)
      → datalog.get (foldl (remove_item t a) s l) b ≡ datalog.get s b
  old-removed a b [] s = refl
  old-removed a b (i ∷ l) s =
      old-removed a b l (remove_item t a s i) ∙ laws.item_old.get-remove _ _ _

  old-cleared :
      (a b : AccountId) (l : List ℕ) (s : State)
      → datalog.get (cleared t a l s) b ≡ datalog.get (datalog.remove a s) b
  unfolding cleared
  old-cleared a b l s = old-removed a b l _ ∙ laws.index_old.get-remove _ _ _

  DropsOf-remove :
      (a : AccountId) (s s' : State)
      → ((b : AccountId) → datalog.get s' b ≡ datalog.get (datalog.remove a s) b)
      → DropsOf t a s s'
  DropsOf-remove a s s' same = (
    same a ∙ laws.old_map.get-remove_self a s,
    λ b ne. same b ∙ laws.old_map.get-remove_ne a b s ne,
  )

  Effect-Drops :
      (origin : Origin) (c : Call Record) (s : State)
      (x : Result (Unit {0}) × State × List (Event AccountId Moment Record))
      → Effect t origin c s x
      → Drops t origin (x.0) s (x.1)
  Effect-Drops origin c s x (too_big rec e big) = λ b. refl
  Effect-Drops origin c s x (unsigned e bad) = λ b. refl
  Effect-Drops origin c s x (records a rec e signed small) =
      (a, signed, DropsOf-remove a s _ (λ b. old-recorded a b rec s))
  Effect-Drops origin c s x (erases a e signed) =
      (a, signed, DropsOf-remove a s _ (λ b. old-cleared a b _ s))

  -- Where every index is valid, a call returns within `window_size` rounds. If it returns without an
  -- error its origin is signed, the signer has no values of the previous version left, and those of all
  -- other accounts are as they were; if it returns an error, no account has lost any.
  pub dispatch-Drops :
      (fuel : ℕ) (origin : Origin) (c : Call Record) (s : State)
      → window_size ≤ fuel
      → AllValid t laws s
      → (x : Result (Unit {0}) × State × List (Event AccountId Moment Record)) × (dispatch t fuel
            origin c s
          ≡ some x)
        × Drops t origin (x.0) s (x.1)
  dispatch-Drops fuel origin c s enough v =
      let (x, returns, effect) = dispatch-Effect t laws fuel origin c s enough v in
      (x, returns, Effect-Drops origin c s x effect)

-- ===== src/Node/Service/Execute.antt =====
-- A plan is a list of calls that stops at the first failure, and what it is for an assembly of
-- node/cli/src/service.rs to follow one.
use ipci_blockchain.Prelude.{
  Bool, true, false, Option, none, some, List, [], ◌∷◌, ◌++◌, ◌≡◌, refl, ap, ap₂, sym, ◌∙◌,
}
use ipci_blockchain.Node.Service.Steps.{
  Assembly, Failures, Step, Ended, completed, failed, panicked, outcome, continue, try_call, call,
  done, when, ◌>>◌,
}

-- A call, and whether it can fail.
abbrev pub Plan : Type 0 → Type 0
Plan Address = List (Bool × Step Address)

-- The calls that are made on a condition.
unfoldable pub only : {Address : Type 0} → Bool → Plan Address → Plan Address
only true p = p
only false p = []

module _ {Address ServiceError : Type 0} where
  abbrev pub stop_on :
      Option ServiceError
      → Step Address
      → Ended ServiceError × List (Step Address)
      → Ended ServiceError × List (Step Address)
  stop_on none s rest = (rest.0, s ∷ rest.1)
  stop_on (some e) s rest = (failed e, s ∷ [])

  -- The calls of a plan up to the first that fails.
  unfoldable pub execute :
      Failures Address ServiceError → Plan Address → Ended ServiceError × List (Step Address)
  execute fails [] = (completed, [])
  execute fails ((false, s) ∷ p) = stop_on none s (execute fails p)
  execute fails ((true, s) ∷ p) = stop_on (fails s) s (execute fails p)

  -- an assembly that does what a plan says
  pub record Follows (m : Assembly Address ServiceError) (p : Plan Address) : Type 0 where
    pub follows : (fails : Failures Address ServiceError) → m fails ≡ execute fails p

  stop_on-continue :
      (o : Option ServiceError) (s : Step Address)
      (xs ys : Ended ServiceError × List (Step Address))
      → stop_on o s (continue xs.0 xs.1 ys) ≡ continue (stop_on o s xs).0 (stop_on o s xs).1 ys
  stop_on-continue none s (completed, made) ys = refl
  stop_on-continue none s (failed e, made) ys = refl
  stop_on-continue none s (panicked, made) ys = refl
  stop_on-continue (some e) s xs ys = refl

  execute-++ :
      (fails : Failures Address ServiceError) (p q : Plan Address)
      → execute fails (p ++ q) ≡ continue (execute fails p).0 (execute fails p).1 (execute fails q)
  unfolding execute
  execute-++ fails [] q = refl
  execute-++ fails ((false, s) ∷ p) q =
      ap (stop_on none s) (execute-++ fails p q)
      ∙ stop_on-continue none s (execute fails p) (execute fails q)
  execute-++ fails ((true, s) ∷ p) q =
      ap (stop_on (fails s) s) (execute-++ fails p q)
      ∙ stop_on-continue (fails s) s (execute fails p) (execute fails q)

  outcome-stop_on :
      (o : Option ServiceError) (s : Step Address)
      → (outcome o, s ∷ []) ≡ stop_on o s (completed, [])
  outcome-stop_on none s = refl
  outcome-stop_on (some e) s = refl

  pub try_call-Follows : (s : Step Address) → Follows (try_call s) ((true, s) ∷ [])
  unfolding execute
  try_call-Follows s = record { follows = λ fails. outcome-stop_on (fails s) s }

  pub call-Follows : (s : Step Address) → Follows (call s) ((false, s) ∷ [])
  unfolding execute
  call-Follows s = record { follows = λ fails. refl }

  pub done-Follows : Follows done []
  unfolding execute
  done-Follows = record { follows = λ fails. refl }

  pub >>-Follows :
      {m n : Assembly Address ServiceError} {p q : Plan Address}
      → Follows m p
      → Follows n q
      → Follows (m >> n) (p ++ q)
  >>-Follows {m} {n} {p} {q} hm hn = record {
    follows = λ fails.
        ap₂ (λ x y. continue x.0 x.1 y) (hm.follows fails) (hn.follows fails)
        ∙ sym (execute-++ fails p q);
  }

  pub when-Follows :
      {m : Assembly Address ServiceError} {p : Plan Address} (b : Bool)
      → Follows m p
      → Follows (when b m) (only b p)
  unfolding only
  when-Follows true h = h
  when-Follows false h = done-Follows

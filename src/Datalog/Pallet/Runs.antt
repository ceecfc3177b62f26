-- ===== src/Datalog/Pallet/Runs.antt =====
-- Any sequence of calls and queries of pallets/datalog/src/lib.rs, with what each of them answers.
use mathlib.Core.Path.{fun_ext}
use ipci_blockchain.Prelude.{ℕ, ◌≤◌, ◌≡◌, refl, ap, ◌∙◌, subst, Option, some, List, [], ◌∷◌}
use ipci_blockchain.Prelude.Options.{◌>>=◌}
use ipci_blockchain.Datalog.Pallet.{Trait, Result, Event, RingBufferItem, Call, dispatch, data_of}
use ipci_blockchain.Datalog.Pallet.Laws.{IsTrait}
use ipci_blockchain.Datalog.Pallet.Outcome.{log}
use ipci_blockchain.Datalog.Pallet.History.{data_of-eq-log}
use ipci_blockchain.Datalog.Pallet.Valid.{AllValid}
use ipci_blockchain.Datalog.Pallet.Refines.{Logs, Answer, answer, Does, dispatch-Does}
use ipci_blockchain.Datalog.Pallet.Timestamp.{Clock, log-set}

-- A call in a block with a timestamp, and the query of an account's log.
pub data Request (Moment Origin AccountId Record : Type 0) : Type 0 where
  call : Moment → Origin → Call Record → Request Moment Origin AccountId Record
  query : AccountId → Request Moment Origin AccountId Record

-- The result of a call, with its events, and the items that a query returns.
pub data Reply (AccountId Moment Record : Type 0) : Type 0 where
  returned :
      Result (Unit {0}) → List (Event AccountId Moment Record) → Reply AccountId Moment Record
  shown : List (RingBufferItem Moment Record) → Reply AccountId Moment Record

module _ {State Origin AccountId Moment Record : Type 0}
    (t : Trait State Origin AccountId Moment Record) (same : Discrete AccountId) where
  -- what a machine that has the logs and nothing else replies to a sequence of requests
  abbrev replied :
      Answer t same
      → (Logs t same → List (Reply AccountId Moment Record))
      → List (Reply AccountId Moment Record)
  replied (r, logs, es) rest = returned r es ∷ rest logs

  unfoldable pub replies :
      List (Request Moment Origin AccountId Record)
      → Logs t same
      → List (Reply AccountId Moment Record)
  replies [] logs = []
  replies (call m origin c ∷ rs) logs = replied (answer t same origin c m logs) (replies rs)
  replies (query a ∷ rs) logs = shown (logs a) ∷ replies rs logs

module _ {State Origin AccountId Moment Record : Type 0}
    (t : Trait State Origin AccountId Moment Record) (set : Moment → State → State) where
  -- what the pallet replies, where a loop of a call or of a query has `fuel` rounds
  unfoldable pub run :
      ℕ
      → List (Request Moment Origin AccountId Record)
      → State
      → Option (List (Reply AccountId Moment Record))
  run fuel [] s = some []
  run fuel (call m origin c ∷ rs) s = do
    (r, s', es) ← dispatch t fuel origin c (set m s)
    rest ← run fuel rs s'
    some (returned r es ∷ rest)
  run fuel (query a ∷ rs) s = do
    items ← data_of t fuel a s
    rest ← run fuel rs s
    some (shown items ∷ rest)

module _ {State Origin AccountId Moment Record : Type 0}
    (t : Trait State Origin AccountId Moment Record) (laws : IsTrait t) (clock : Clock t) (fuel : ℕ)
    (enough : t.window_size ≤ fuel) where
  -- the call of a block on logs that the storage holds
  dispatch-set :
      (m : Moment) (origin : Origin) (c : Call Record) (s : State)
      (logs : Logs t laws.account_discrete)
      → AllValid t laws s
      → log t s ≡ logs
      → Does t laws
          (dispatch t fuel origin c (clock.set m s))
          (answer t laws.account_discrete origin c m logs)
  dispatch-set m origin c s logs v holds =
      subst
        (λ l.
          Does t laws (dispatch t fuel origin c (clock.set m s))
            (answer t laws.account_discrete origin c m l))
        (log-set t laws clock m s ∙ holds)
        (subst
          (λ k.
            Does t laws (dispatch t fuel origin c (clock.set m s))
              (answer t laws.account_discrete origin c k (log t (clock.set m s))))
          (clock.now-set m s)
          (dispatch-Does t laws fuel origin c (clock.set m s) enough
            (λ a. rw (clock.index-set m s a) (v a))))

  run-held :
      (rs : List (Request Moment Origin AccountId Record)) (s : State)
      (logs : Logs t laws.account_discrete)
      → AllValid t laws s
      → log t s ≡ logs
      → run t clock.set fuel rs s ≡ some (replies t laws.account_discrete rs logs)
  unfolding run replies
  run-held [] s logs v holds = refl
  run-held (call m origin c ∷ rs) s logs v holds =
      let (s', done, v', holds') = dispatch-set m origin c s logs v holds in
      rw (done, run-held rs s' _ v' (fun_ext holds'))
  run-held (query a ∷ rs) s logs v holds =
      rw (data_of-eq-log t laws fuel a s enough (v a), run-held rs s logs v holds)
        (ap (λ l. some (shown (l a) ∷ replies t laws.account_discrete rs logs)) holds)

  -- Where every index is valid, any sequence of calls and queries returns, with `window_size` rounds for
  -- each loop, and replies what a machine replies that has the log of every account and nothing else.
  pub run-replies :
      (rs : List (Request Moment Origin AccountId Record)) (s : State)
      → AllValid t laws s
      → run t clock.set fuel rs s ≡ some (replies t laws.account_discrete rs (log t s))
  run-replies rs s v = run-held rs s (log t s) v refl

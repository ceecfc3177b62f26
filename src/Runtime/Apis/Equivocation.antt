-- ===== src/Runtime/Apis/Equivocation.antt =====
-- Reports of equivocations through the runtime's APIs (node/runtime/src/lib.rs).
use ipci_blockchain.Prelude.{ℕ, ◌≡◌, ◌⊎◌, inl, inr, none, some, Option-cases}
use ipci_blockchain.Runtime.Apis.{
  Equivocations, submit_report_equivocation, generate_key_ownership_proof,
}

module _ {State KeyType AuthorityId Proof Opaque EquivocationProof : Type 0}
    (c : Equivocations State KeyType AuthorityId Proof Opaque EquivocationProof) where
  -- What an authority's report does: with no historical proof of the authority there is none to send;
  -- else the proof that is generated, sent back with a report, reaches the pallet.
  abbrev pub Reported : ℕ → AuthorityId → EquivocationProof → State → State → Type 0
  Reported set_id authority equivocation s s' =
      ((c.prove s (c.key_type, authority) ≡ none)
        × (generate_key_ownership_proof c set_id authority s ≡ none))
      ⊎ ((p : Proof) × (opaque : Opaque) × (c.prove s (c.key_type, authority) ≡ some p)
          × (generate_key_ownership_proof c set_id authority s ≡ some opaque)
          × (submit_report_equivocation c equivocation opaque s'
              ≡ c.submit_unsigned_report equivocation p s'))

  -- Where encoded proofs decode to themselves, a key ownership proof is generated exactly when the
  -- historical session pallet has one. Submitted with a report, perhaps in a later state, it passes
  -- that proof to the consensus pallet.
  pub submit-generate :
      ((p : Proof) → c.decode (c.encode p) ≡ some p)
      → (set_id : ℕ) (authority : AuthorityId) (equivocation : EquivocationProof) (s s' : State)
      → Reported set_id authority equivocation s s'
  unfolding submit_report_equivocation generate_key_ownership_proof
  submit-generate decode-encode set_id authority equivocation s s' =
      elim (Option-cases (c.prove s (c.key_type, authority))) [
        | inl missing ↦ inl (missing, rw missing)
        | inr (p, proved) ↦ inr (p, c.encode p, proved, rw proved, rw (decode-encode p))
      ]

  -- A report whose key ownership proof does not decode is refused, and nothing is written.
  pub submit-undecodable :
      (equivocation : EquivocationProof) (opaque : Opaque) (s : State)
      → c.decode opaque ≡ none
      → submit_report_equivocation c equivocation opaque s ≡ (none, s)
  unfolding submit_report_equivocation
  submit-undecodable equivocation opaque s bad = rw bad

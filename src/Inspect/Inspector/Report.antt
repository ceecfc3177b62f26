-- ===== src/Inspect/Inspector/Report.antt =====
-- What the report of a block says of its extrinsics (node/inspect/src/lib.rs).
use mathlib.Core.List.{append_assoc}
use ipci_blockchain.Prelude.{
  ℕ, zero, suc, ◌+◌, ◌≡◌, sym, subst, ◌∙◌, ap, some, Option-cases, inl, inr, List, [], ◌∷◌, ◌++◌,
  get_elem?, arith,
}
use ipci_blockchain.Text.{Text, codes, ok, Result-cases, show_usize}
use ipci_blockchain.Inspect.Address.{BlockAddress, block}
use ipci_blockchain.Inspect.Inspector.{
  Client, get_block, get_extrinsic, fmt_extrinsic, fmt_extrinsics, fmt_head, fmt_block, print_block,
  print_extrinsic,
}

-- what a block's report says of the extrinsic at a position
abbrev pub entry : ℕ → Text → Text
entry index report = codes "- " ++ show_usize index ++ codes ":\n" ++ report

-- a text that stands somewhere in another
abbrev pub Contains : Text → Text → Type 0
Contains whole part = (before : Text) × (after : Text) × (whole ≡ before ++ (part ++ after))

append-Contains : (front whole part : Text) → Contains whole part → Contains (front ++ whole) part
append-Contains front whole part (before, after, e) = (
  front ++ before,
  after,
  ap (λ t. front ++ t) e ∙ sym (append_assoc front before (part ++ after)),
)

module _ {Hash Number Header Extrinsic Block CodecError ChainError : Type 0}
    (c : Client Hash Number Header Extrinsic Block CodecError ChainError) where
  fmt_extrinsics-Contains :
      (idx : ℕ) (es : List Extrinsic) (i : ℕ) (e : Extrinsic)
      → get_elem? es i ≡ some e
      → Contains (fmt_extrinsics c idx es) (entry (idx + i) (fmt_extrinsic c e))
  unfolding fmt_extrinsics
  fmt_extrinsics-Contains idx [] i e h = cc h
  fmt_extrinsics-Contains idx (x ∷ es) zero e h =
      let same : idx + 0 ≡ idx = omega arith in
      let it : x ≡ e = cc h in ([], fmt_extrinsics c (idx + 1) es, rw (same, it))
  fmt_extrinsics-Contains idx (x ∷ es) (suc i) e h =
      let moved : idx + suc i ≡ idx + 1 + i = omega arith in
      append-Contains (entry idx (fmt_extrinsic c x)) (fmt_extrinsics c (idx + 1) es)
        (entry (idx + suc i) (fmt_extrinsic c e))
        (rw moved (fmt_extrinsics-Contains (idx + 1) es i e h))

  fmt_block-Contains :
      (b : Block) (i : ℕ) (e : Extrinsic)
      → get_elem? (c.extrinsics b) i ≡ some e
      → Contains (fmt_block c b) (entry i (fmt_extrinsic c e))
  unfolding fmt_block
  fmt_block-Contains b i e h =
      let there : Contains (fmt_extrinsics c 0 (c.extrinsics b)) (entry i (fmt_extrinsic c e)) =
        let start : 0 + i ≡ i = omega arith in
        rw start at (fmt_extrinsics-Contains 0 (c.extrinsics b) i e h) in
      append-Contains (fmt_head c b) (fmt_extrinsics c 0 (c.extrinsics b))
        (entry i (fmt_extrinsic c e)) there

  -- Where the inspector prints the extrinsic at an index of a block, it also prints the block, and
  -- the block's report has that report of the extrinsic behind a line with the index.
  pub print_block-Contains :
      (a : BlockAddress Hash Number) (index : ℕ) (report : Text)
      → print_extrinsic c (block a index) ≡ ok report
      → (whole : Text) × (print_block c a ≡ ok whole) × Contains whole (entry index report)
  unfolding print_block print_extrinsic get_extrinsic
  print_block-Contains a index report h = elim (Result-cases (get_block c a)) [
    | inr (e, p) ↦ cc (rw p at h)
    | inl (b, p) ↦ elim (Option-cases (get_elem? (c.extrinsics b) index)) [
      | inl missing ↦ cc (rw (p, missing) at h)
      | inr (e, at) ↦
          let printed : fmt_extrinsic c e ≡ report = cc (rw (p, at) at h) in
          (
            fmt_block c b,
            rw p,
            subst (λ t. Contains (fmt_block c b) (entry index t)) printed
                (fmt_block-Contains b index e at),
          )
    ]
  ]

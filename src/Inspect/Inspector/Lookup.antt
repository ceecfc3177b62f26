-- ===== src/Inspect/Inspector/Lookup.antt =====
-- Which blocks and extrinsics are found, and which error is reported.
use ipci_blockchain.Prelude.{
  ℕ, ◌≡◌, ◌↔◌, sym, ap, ◌∙◌, Option, none, some, List, Option-cases, inl, inr, ◌++◌, get_elem?,
}
use ipci_blockchain.Text.{Text, codes, show_usize, Result, ok, err, Result-cases}
use ipci_blockchain.Inspect.Address.{number, block}
use ipci_blockchain.Inspect.Inspector.{
  Error, not_found, BlockId, by_number, Client, look_up, get_block, get_extrinsic, fmt_extrinsic,
  print_extrinsic,
}

module _ {Hash Number Header Extrinsic Block CodecError ChainError : Type 0}
    (c : Client Hash Number Header Extrinsic Block CodecError ChainError) where
  look_up-found :
      (id : BlockId Hash Number) (body : List Extrinsic) (head : Header)
      → c.block_body id ≡ ok (some body)
      → c.header id ≡ ok (some head)
      → look_up c id ≡ ok (c.new_block head body)
  unfolding look_up
  look_up-found id body head hb hh = rw (hb, hh)

  -- what a block found on the chain consists of
  abbrev pub Found : BlockId Hash Number → Block → Type 0
  Found id b =
      (body : List Extrinsic) × (head : Header) × (c.block_body id ≡ ok (some body))
      × (c.header id ≡ ok (some head))
      × (b ≡ c.new_block head body)

  look_up-Found : (id : BlockId Hash Number) (b : Block) → look_up c id ≡ ok b → Found id b
  unfolding look_up
  look_up-Found id b h = elim (Result-cases (c.block_body id)) [
    | inr (e, p) ↦ cc (rw p at h)
    | inl (none, p) ↦ cc (rw p at h)
    | inl (some body, p) ↦ elim (Result-cases (c.header id)) [
      | inr (e, q) ↦ cc (rw (p, q) at h)
      | inl (none, q) ↦ cc (rw (p, q) at h)
      | inl (some head, q) ↦ (body, head, p, q, cc (rw (p, q) at h))
    ]
  ]

  -- A block is returned for an id exactly when the chain has both a body and a header for it, and it is
  -- made of these.
  pub look_up_iff : (id : BlockId Hash Number) (b : Block) → (look_up c id ≡ ok b) ↔ Found id b
  look_up_iff id b = (
    look_up-Found id b,
    λ (body, head, hb, hh, e). look_up-found id body head hb hh ∙ ap ok (sym e),
  )

  -- what is answered for an extrinsic of a block, if there is one at the index
  abbrev pub answer : ℕ → Block → Option Extrinsic → Result (Error CodecError ChainError) Text
  answer i b (some e) = ok (fmt_extrinsic c e)
  answer i b none = err (
      not_found (
        codes "Could not find extrinsic " ++ show_usize i ++ codes " in block " ++ c.debug_block b))

  -- Where the framework's blocks give back the extrinsics they are made of, and the chain has a body and
  -- a header for a number, asking for the extrinsic at an index of that block prints the one at that
  -- index of the body, and reports it as not found, with the block in the message, if the index lies
  -- beyond the body.
  pub print_extrinsic-on_chain :
      (n : Number) (i : ℕ) (body : List Extrinsic) (head : Header)
      → ((h : Header) (es : List Extrinsic) → c.extrinsics (c.new_block h es) ≡ es)
      → c.block_body (by_number n) ≡ ok (some body)
      → c.header (by_number n) ≡ ok (some head)
      → print_extrinsic c (block (number n) i) ≡ answer i (c.new_block head body) (get_elem? body i)
  unfolding print_extrinsic get_extrinsic get_block
  print_extrinsic-on_chain n i body head whole hb hh = elim (Option-cases (get_elem? body i)) [
    | inl missing ↦ rw (look_up-found (by_number n) body head hb hh, whole, missing)
    | inr (e, at) ↦ rw (look_up-found (by_number n) body head hb hh, whole, at)
  ]

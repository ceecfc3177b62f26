-- ===== src/Inspect/Address/Grammar.antt =====
-- Which texts node/inspect/src/lib.rs reads as the address of an extrinsic.
use mathlib.Core.List.{append-nil}
use ipci_blockchain.Prelude.{
  ℕ, ◌≡◌, ◌↔◌, ◌⊎◌, inl, inr, refl, sym, ap, ◌∙◌, Bool, true, some, List, [], ◌∷◌, ◌++◌, Bool-cases,
}
use ipci_blockchain.Text.{Text, Result, ok, err, split, parse_usize, Result-cases}
use ipci_blockchain.Inspect.Address.{
  BlockAddress, ExtrinsicAddress, block, raw_bytes, Readers, is_separator, block_from_str,
  from_segments, extrinsic_from_str,
}
use ipci_blockchain.Inspect.Address.Parse.{
  Free, split-Free, split-append, not_hex, extrinsic_from_str-IsTotal,
}

-- A text has no separator, or one before which there is none.
abbrev Cut : (ℕ → Bool) → Text → Type 0
Cut p s =
    Free p s
    ⊎ ((w : Text) × (c : ℕ) × (rest : Text) × Free p w × (p c ≡ true) × (s ≡ w ++ c ∷ rest))

cut : (p : ℕ → Bool) (s : Text) → Cut p s
cut p [] = inl tt
cut p (c ∷ s) = elim (Bool-cases (p c)) [
  | inl sep ↦ inr ([], c, s, tt, sep, refl)
  | inr free ↦ elim (cut p s) [
    | inl h ↦ inl (free, h)
    | inr (w, d, rest, h, sep, e) ↦ inr (c ∷ w, d, rest, (free, h), sep, ap (λ t. c ∷ t) e)
  ]
]

-- what may stand behind the index: nothing, or a separator and anything
abbrev pub Tail : Text → Type 0
Tail [] = Unit
Tail (c ∷ junk) = is_separator c ≡ true

module _ {Hash Number : Type 0} (r : Readers Hash Number) where
  -- The texts that stand for an address: hexadecimal bytes, or, if they are not that, a block's address
  -- without separators, a separator, and an index without separators, with anything behind another.
  pub data StandsFor (s : Text) (x : ExtrinsicAddress Hash Number) : Type 0 where
    in_bytes : (b : List ℕ) → r.from_hex s ≡ ok b → x ≡ raw_bytes b → StandsFor s x
    in_block :
        (e w : Text) (c : ℕ) (index tail : Text) (a : BlockAddress Hash Number) (i : ℕ)
        → r.from_hex s ≡ err e
        → s ≡ w ++ c ∷ (index ++ tail)
        → Free is_separator w
        → is_separator c ≡ true
        → Free is_separator index
        → Tail tail
        → block_from_str r w ≡ ok a
        → parse_usize index ≡ ok i
        → x ≡ block a i
        → StandsFor s x

  segments-ok :
      (w index : Text) (ws : List Text) (x : ExtrinsicAddress Hash Number)
      → from_segments r (w ∷ index ∷ ws) ≡ some (ok x)
      → (a : BlockAddress Hash Number) × (i : ℕ) × (block_from_str r w ≡ ok a)
        × (parse_usize index ≡ ok i)
        × (x ≡ block a i)
  unfolding from_segments
  segments-ok w index ws x h = elim (Result-cases (block_from_str r w)) [
    | inr (e, bad) ↦ cc (rw bad at h)
    | inl (a, good) ↦ elim (Result-cases (parse_usize index)) [
      | inr (e, bad) ↦ cc (rw (good, bad) at h)
      | inl (i, read) ↦ (a, i, good, read, cc (rw (good, read) at h))
    ]
  ]

  segments-short :
      (w : Text) (x : ExtrinsicAddress Hash Number) → ¬ (from_segments r (w ∷ []) ≡ some (ok x))
  unfolding from_segments
  segments-short w x h = elim (Result-cases (block_from_str r w)) [
    | inr (e, bad) ↦ cc (rw bad at h)
    | inl (a, good) ↦ cc (rw good at h)
  ]

  ok-segments :
      (w index : Text) (ws : List Text) (a : BlockAddress Hash Number) (i : ℕ)
      → block_from_str r w ≡ ok a
      → parse_usize index ≡ ok i
      → from_segments r (w ∷ index ∷ ws) ≡ some (ok (block a i))
  unfolding from_segments
  ok-segments w index ws a i good read = rw (good, read)

  -- the segments of a text with its first separator, and with its second
  split-Tail :
      (w : Text) (c : ℕ) (index tail : Text)
      → Free is_separator w
      → is_separator c ≡ true
      → Free is_separator index
      → Tail tail
      → (ws : List Text) × (split is_separator (w ++ c ∷ (index ++ tail)) ≡ w ∷ index ∷ ws)
  split-Tail w c index [] hw hc hi ht = (
    [],
    split-append is_separator w c (index ++ []) hw hc
        ∙ ap (λ t. w ∷ split is_separator t) (append-nil index)
        ∙ ap (λ ws. w ∷ ws) (split-Free is_separator index hi),
  )
  split-Tail w c index (d ∷ junk) hw hc hi ht = (
    split is_separator junk,
    split-append is_separator w c (index ++ d ∷ junk) hw hc
        ∙ ap (λ ws. w ∷ ws) (split-append is_separator index d junk hi ht),
  )

  -- what is behind the first separator begins with the index
  behind-StandsFor :
      (s : Text) (x : ExtrinsicAddress Hash Number) (e w : Text) (c : ℕ) (rest : Text)
      → r.from_hex s ≡ err e
      → Free is_separator w
      → is_separator c ≡ true
      → s ≡ w ++ c ∷ rest
      → from_segments r (w ∷ split is_separator rest) ≡ some (ok x)
      → Cut is_separator rest
      → StandsFor s x
  behind-StandsFor s x e w c rest no_hex hw hc is h (inl hi) =
      let (a, i, good, read, y) =
        segments-ok w rest [] x
          (ap (λ ws. from_segments r (w ∷ ws)) (sym (split-Free is_separator rest hi)) ∙ h) in
      in_block e w c rest [] a i no_hex (is ∙ ap (λ t. w ++ c ∷ t) (sym (append-nil rest))) hw hc hi
        tt good read y
  behind-StandsFor s x e w c rest no_hex hw hc is h (inr (index, d, junk, hi, hd, at)) =
      let segments = ap (split is_separator) at ∙ split-append is_separator index d junk hi hd in
      let (a, i, good, read, y) =
        segments-ok w index (split is_separator junk) x
          (ap (λ ws. from_segments r (w ∷ ws)) (sym segments) ∙ h) in
      in_block e w c index (d ∷ junk) a i no_hex (is ∙ ap (λ t. w ++ c ∷ t) at) hw hc hi hd good
        read y

  segments-StandsFor :
      (s : Text) (x : ExtrinsicAddress Hash Number) (e : Text)
      → r.from_hex s ≡ err e
      → from_segments r (split is_separator s) ≡ some (ok x)
      → Cut is_separator s
      → StandsFor s x
  segments-StandsFor s x e no_hex h (inl free) =
      absurd (segments-short s x (ap (from_segments r) (sym (split-Free is_separator s free)) ∙ h))
  segments-StandsFor s x e no_hex h (inr (w, c, rest, hw, hc, is)) =
      behind-StandsFor s x e w c rest no_hex hw hc is
        (ap (from_segments r)
            (sym (ap (split is_separator) is ∙ split-append is_separator w c rest hw hc))
          ∙ h)
        (cut is_separator rest)

  read-StandsFor :
      (s : Text) (x : ExtrinsicAddress Hash Number)
      → extrinsic_from_str r s ≡ some (ok x)
      → StandsFor s x
  unfolding extrinsic_from_str
  read-StandsFor s x h = elim (Result-cases (r.from_hex s)) [
    | inl (b, hex) ↦ in_bytes b hex (cc (rw (hex, extrinsic_from_str) at h))
    | inr (e, no_hex) ↦
        segments-StandsFor s x e no_hex (sym (not_hex r s e no_hex) ∙ h) (cut is_separator s)
  ]

  StandsFor-read :
      (s : Text) (x : ExtrinsicAddress Hash Number)
      → StandsFor s x
      → extrinsic_from_str r s ≡ some (ok x)
  unfolding extrinsic_from_str
  StandsFor-read s x (in_bytes b hex e) =
      rw (hex, extrinsic_from_str) (ap (λ y. some (ok y)) (sym e))
  StandsFor-read s x (in_block e w c index tail a i no_hex is hw hc hi ht good read y) =
      let (ws, segments) = split-Tail w c index tail hw hc hi ht in
      not_hex r s e no_hex
      ∙ ap (λ t. from_segments r (split is_separator t)) is
      ∙ ap (from_segments r) segments
      ∙ ok-segments w index ws a i good read
      ∙ ap (λ z. some (ok z)) (sym y)

  -- The reader of extrinsic addresses never panics: it accepts or refuses every text; and it reads a
  -- text as an address exactly when the text stands for that address.
  pub extrinsic_from_str_iff :
      (s : Text) (x : ExtrinsicAddress Hash Number)
      → ((y : Result Text (ExtrinsicAddress Hash Number)) × (extrinsic_from_str r s ≡ some y))
        × ((extrinsic_from_str r s ≡ some (ok x)) ↔ StandsFor s x)
  extrinsic_from_str_iff s x =
      (extrinsic_from_str-IsTotal r s, (read-StandsFor s x, StandsFor-read s x))

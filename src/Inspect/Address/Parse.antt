-- ===== src/Inspect/Address/Parse.antt =====
-- What the reader of an extrinsic's address accepts.
use ipci_blockchain.Prelude.{
  ℕ, ◌<◌, ◌^◌, ◌≡◌, refl, ap, ◌∙◌, Bool, true, false, List, [], ◌∷◌, ◌++◌, some, Bool-cases, inl,
  inr, arith,
}
use ipci_blockchain.Text.{
  Text, Result, ok, err, ◌>>=◌, split, Digits, decimal-Digits, Result-cases, show_usize,
  parse_usize-show_usize,
}
use ipci_blockchain.Inspect.Address.{
  ExtrinsicAddress, block, raw_bytes, Readers, is_separator, block_from_str, from_segments,
  extrinsic_from_str,
}

-- no character of the text passes the test
abbrev pub Free : (ℕ → Bool) → Text → Type 0
Free p [] = Unit {0}
Free p (c ∷ s) = (p c ≡ false) × Free p s

pub split-Free : (p : ℕ → Bool) (w : Text) → Free p w → split p w ≡ w ∷ []
unfolding split
split-Free p [] h = refl
split-Free p (c ∷ w) h = rw (h.0, split-Free p w h.1)

pub split-append :
    (p : ℕ → Bool) (w : Text) (c : ℕ) (s : Text)
    → Free p w
    → p c ≡ true
    → split p (w ++ c ∷ s) ≡ w ∷ split p s
unfolding split
split-append p [] c s h hc = rw hc
split-append p (d ∷ w) c s h hc = rw (h.0, split-append p w c s h.1 hc)

-- A text is always split into at least one segment.
split-cons : (p : ℕ → Bool) (s : Text) → (w : Text) × (ws : List Text) × (split p s ≡ w ∷ ws)
unfolding split
split-cons p [] = ([], [], refl)
split-cons p (c ∷ s) =
    let (w, ws, e) = split-cons p s in
    elim (Bool-cases (p c)) [
      | inl yes_sep ↦ ([], split p s, rw yes_sep)
      | inr no_sep ↦ (c ∷ w, ws, rw (no_sep, e))
    ]

Digits-Free : (s : Text) → Digits s → Free is_separator s
Digits-Free [] h = tt
Digits-Free (c ∷ s) h = (ground arith, Digits-Free s h.1)

module _ {Hash Number : Type 0} (r : Readers Hash Number) where
  pub not_hex :
      (s e : Text)
      → r.from_hex s ≡ err e
      → extrinsic_from_str r s ≡ from_segments r (split is_separator s)
  unfolding extrinsic_from_str
  not_hex s e h = rw (h, extrinsic_from_str)

  from_segments-IsTotal :
      (w : Text) (ws : List Text)
      → (x : Result Text (ExtrinsicAddress Hash Number)) × (from_segments r (w ∷ ws) ≡ some x)
  unfolding from_segments
  from_segments-IsTotal w [] = (_, refl)
  from_segments-IsTotal w (i ∷ rest) = (_, refl)

  -- The `expect` in the reader of extrinsic addresses never panics: every text is accepted or refused.
  pub extrinsic_from_str-IsTotal :
      (s : Text)
      → (x : Result Text (ExtrinsicAddress Hash Number)) × (extrinsic_from_str r s ≡ some x)
  unfolding extrinsic_from_str
  extrinsic_from_str-IsTotal s = elim (Result-cases (r.from_hex s)) [
    | inl (b, e) ↦ (ok (raw_bytes b), rw (e, extrinsic_from_str))
    | inr (m, e) ↦
        let (w, ws, cut) = split-cons is_separator s in
        let (x, q) = from_segments-IsTotal w ws in (x, not_hex s m e ∙ ap (from_segments r) cut ∙ q)
  ]

  segments-show :
      (b : Text) (n : ℕ) (rest : List Text)
      → n < 2 ^ 64
      → from_segments r (b ∷ show_usize n ∷ rest)
        ≡ some (block_from_str r b >>= λ a. ok (block a n))
  unfolding from_segments
  segments-show b n rest small = simp (parse_usize-show_usize n small)

  show_usize-Free : (n : ℕ) → Free is_separator (show_usize n)
  show_usize-Free n = Digits-Free (show_usize n) (decimal-Digits 20 n [] tt)

  -- the same address with nothing behind the index
  pub extrinsic_from_str-show_usize :
      (b : Text) (c n : ℕ) (e : Text)
      → Free is_separator b
      → is_separator c ≡ true
      → n < 2 ^ 64
      → r.from_hex (b ++ c ∷ show_usize n) ≡ err e
      → extrinsic_from_str r (b ++ c ∷ show_usize n)
        ≡ some (block_from_str r b >>= λ a. ok (block a n))
  extrinsic_from_str-show_usize b c n e free sep small no_hex =
      not_hex _ e no_hex
      ∙ ap (from_segments r) (split-append is_separator b c (show_usize n) free sep)
      ∙ ap (λ ws. from_segments r (b ∷ ws))
          (split-Free is_separator (show_usize n) (show_usize-Free n))
      ∙ segments-show b n [] small

  -- A block's address with no separator in it, a separator and the digits of a `usize` is read as the
  -- extrinsic of that index in that block, or refused with the error of the block's address, unless the
  -- whole text is hexadecimal bytes. Anything behind a further separator is ignored.
  pub extrinsic_from_str-show :
      (b junk : Text) (c c' n : ℕ) (e e' : Text)
      → Free is_separator b
      → is_separator c ≡ true
      → is_separator c' ≡ true
      → n < 2 ^ 64
      → r.from_hex (b ++ c ∷ show_usize n) ≡ err e
      → r.from_hex (b ++ c ∷ (show_usize n ++ c' ∷ junk)) ≡ err e'
      → (extrinsic_from_str r (b ++ c ∷ show_usize n)
          ≡ some (block_from_str r b >>= λ a. ok (block a n)))
        × (extrinsic_from_str r (b ++ c ∷ (show_usize n ++ c' ∷ junk))
            ≡ some (block_from_str r b >>= λ a. ok (block a n)))
  extrinsic_from_str-show b junk c c' n e e' free sep sep' small no_hex no_hex' = (
    extrinsic_from_str-show_usize b c n e free sep small no_hex,
    not_hex _ e' no_hex'
        ∙ ap (from_segments r) (split-append is_separator b c (show_usize n ++ c' ∷ junk) free sep)
        ∙ ap (λ ws. from_segments r (b ∷ ws))
            (split-append is_separator (show_usize n) c' junk (show_usize-Free n) sep')
        ∙ segments-show b n (split is_separator junk) small,
  )

-- ===== src/Inspect/Printer/Default.antt =====
-- That the default printer never fails, and what an inspector does with a printer that may
-- (node/inspect/src/lib.rs).
use mathlib.Core.List.{append_assoc, append-nil}
use ipci_blockchain.Prelude.{ℕ, ◌+◌, ◌≡◌, refl, sym, ap, ◌∙◌, Option, some, List, [], ◌∷◌, ◌++◌}
use ipci_blockchain.Text.{Text, ◌>>=◌, Result, ok, err}
use ipci_blockchain.Inspect.Address.{BlockAddress, ExtrinsicAddress}
use ipci_blockchain.Inspect.Inspector.{
  Client, Error, get_block, get_extrinsic, fmt_block, fmt_extrinsic, fmt_extrinsics, print_block,
  print_extrinsic,
}
use ipci_blockchain.Inspect.Printer.{
  format, write_extrinsic, write_extrinsics, write_block, new, inspect_block, inspect_extrinsic,
}

module _ {Hash Number Header Extrinsic Block CodecError ChainError : Type 0}
    (c : Client Hash Number Header Extrinsic Block CodecError ChainError) where
  write_extrinsic-fmt :
      (out : Text) (e : Extrinsic) → write_extrinsic c out e ≡ some (out ++ fmt_extrinsic c e)
  unfolding write_extrinsic fmt_extrinsic
  write_extrinsic-fmt out e = simp append_assoc

  write_extrinsics-fmt :
      (es : List Extrinsic) (idx : ℕ) (out : Text)
      → write_extrinsics c out idx es ≡ some (out ++ fmt_extrinsics c idx es)
  unfolding write_extrinsics fmt_extrinsics
  write_extrinsics-fmt [] idx out = ap some (sym (append-nil out))
  write_extrinsics-fmt (e ∷ es) idx out =
      rw write_extrinsic-fmt (write_extrinsics-fmt es (idx + 1) _ ∙ ap some (simp append_assoc))

  write_block-fmt : (out : Text) (b : Block) → write_block c out b ≡ some (out ++ fmt_block c b)
  unfolding write_block fmt_block
  write_block-fmt out b = rw write_extrinsics-fmt (simp append_assoc)

  format-total :
      {A : Type 0} (fmt : Text → A → Option Text) (shown : A → Text)
      → ((a : A) → fmt [] a ≡ some (shown a))
      → (r : Result (Error CodecError ChainError) A) → format fmt r ≡ some (r >>= λ a. ok (shown a))
  unfolding format
  format-total fmt shown h (ok a) = rw (h a, format)
  format-total fmt shown h (err e) = refl

  -- Where no write to the formatter fails, the inspector with the default printer returns the reports of
  -- blocks and of extrinsics, or the error of the lookup.
  pub new-serves :
      (a : BlockAddress Hash Number) (x : ExtrinsicAddress Hash Number)
      → (inspect_block (new c) a ≡ some (print_block c a))
        × (inspect_extrinsic (new c) x ≡ some (print_extrinsic c x))
  unfolding inspect_block inspect_extrinsic print_block print_extrinsic
  new-serves a x = (
    format-total (write_block c) (fmt_block c) (write_block-fmt []) (get_block c a),
    format-total (write_extrinsic c) (fmt_extrinsic c) (write_extrinsic-fmt []) (get_extrinsic c x),
  )

-- ===== src/Inspect/Tests/Source.antt =====
-- The tests of node/inspect/src/lib.rs, run on the model, with hashes of 40 hexadecimal digits.
use ipci_blockchain.Prelude.{
  ℕ, ◌+◌, ◌-◌, ◌*◌, ◌≡◌, refl, Option, none, some, List, [], ◌∷◌, ◌==◌, ◌&&◌, leb, length,
  if◌then◌else◌,
}
use ipci_blockchain.Prelude.Options.{◌>>=◌}
use ipci_blockchain.Text.{Text, codes, Result, ok, err, split, parse_usize}
use ipci_blockchain.Inspect.Address.{
  hash, number, bytes, block, raw_bytes, Readers, index_missing, block_from_str, extrinsic_from_str,
}

-- a hexadecimal digit, of either case
abbrev digit : ℕ → Option ℕ
digit c =
    if leb b'0' c && leb c b'9'
    then some (c - b'0')
    else (if leb b'a' c && leb c b'f'
        then some (c - b'a' + 10)
        else (if leb b'A' c && leb c b'F' then some (c - b'A' + 10) else none))

unfoldable hex_value : ℕ → Text → Option ℕ
hex_value n [] = some n
hex_value n (c ∷ s) = do d ← digit c; hex_value (n * 16 + d) s

unfoldable hex_bytes : Text → Option (List ℕ)
hex_bytes [] = some []
hex_bytes (c ∷ []) = none
hex_bytes (c ∷ d ∷ s) = do
  high ← digit c
  low ← digit d
  rest ← hex_bytes s
  some ((high * 16 + low) ∷ rest)

abbrev read_hash : Text → Option ℕ
read_hash s = if length s == 40 then hex_value 0 s else none

abbrev read_number : Text → Option ℕ
read_number s = elim (parse_usize s) [ ok n ↦ some n | err e ↦ none ]

abbrev or_invalid : Option (List ℕ) → Result Text (List ℕ)
or_invalid none = err (codes "invalid character")
or_invalid (some b) = ok b

abbrev from_hex : Text → Result Text (List ℕ)
from_hex (c ∷ d ∷ s) =
    if c == b'0' && d == b'x' then or_invalid (hex_bytes s) else err (codes "missing prefix")
from_hex s = err (codes "missing prefix")

abbrev h160 : Readers ℕ ℕ
h160 = record { read_hash = read_hash; read_number = read_number; from_hex = from_hex }

-- "3BfC20f0B9aFcAcE800D73D2191166FF16540258".parse().unwrap()
abbrev some_hash : ℕ
some_hash = 342453112776374070892371204108109711215263220312

-- What each test asserts, and that it holds.
abbrev ShouldParseBlockStrings : Type 0
ShouldParseBlockStrings =
    (block_from_str h160 (codes "3BfC20f0B9aFcAcE800D73D2191166FF16540258") ≡ ok (hash some_hash))
    × (block_from_str h160 (codes "1234") ≡ ok (number 1234))
    × (block_from_str h160 (codes "0") ≡ ok (number 0))
    × (block_from_str h160 (codes "0x0012345f") ≡ ok (bytes (0 ∷ 18 ∷ 52 ∷ 95 ∷ [])))

ShouldParseBlockStrings-passes : ShouldParseBlockStrings
unfolding block_from_str parse_usize hex_value hex_bytes
ShouldParseBlockStrings-passes = (refl, refl, refl, refl)

abbrev ShouldParseExtrinsicAddress : Type 0
ShouldParseExtrinsicAddress =
    (extrinsic_from_str h160 (codes "1234") ≡ some (err index_missing))
    × (extrinsic_from_str h160 (codes "3BfC20f0B9aFcAcE800D73D2191166FF16540258:5")
        ≡ some (ok (block (hash some_hash) 5)))
    × (extrinsic_from_str h160 (codes "1234:0") ≡ some (ok (block (number 1234) 0)))
    × (extrinsic_from_str h160 (codes "0 0") ≡ some (ok (block (number 0) 0)))
    × (extrinsic_from_str h160 (codes "0x0012345f") ≡ some (ok (raw_bytes (0 ∷ 18 ∷ 52 ∷ 95 ∷ []))))

ShouldParseExtrinsicAddress-passes : ShouldParseExtrinsicAddress
unfolding extrinsic_from_str block_from_str parse_usize split hex_value hex_bytes
ShouldParseExtrinsicAddress-passes = (refl, refl, refl, refl, refl)

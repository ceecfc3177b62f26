-- ===== src/Text.antt =====
-- Texts as lists of code points, with what the source uses of the standard library on them: `split`,
-- the decimal `Display` of an unsigned integer, and `FromStr` of `usize`.
use Prim.Native.Char.{code}
use Prim.Native.String.{String}
use native.Mathlib.Nat.{pow-suc}
use ipci_blockchain.Prelude.{
  ℕ, zero, suc, ◌+◌, ◌-◌, ◌*◌, ◌/◌, ◌%◌, ◌^◌, ◌<◌, ◌≤◌, ◌≡◌, ◌⊎◌, refl, ap, sym, ◌∙◌, Bool, true,
  false, ◌&&◌, List, [], ◌∷◌, arith, leb, ltb, ◌==◌, if◌then◌else◌, Bool-cases, inl, inr,
}

abbrev pub Text : Type 0
Text = List ℕ

abbrev pub codes : String → Text
codes String.[] = []
codes (String.◌∷◌ c s) = code c ∷ codes s

-- `==` of strings
abbrev pub same_text : Text → Text → Bool
same_text [] [] = true
same_text [] (d ∷ t) = false
same_text (c ∷ s) [] = false
same_text (c ∷ s) (d ∷ t) = c == d && same_text s t

-- `Result<A, E>`
pub data Result {ℓ κ} (E : Type ℓ) (A : Type κ) : Type (ℓ ⊔ κ) where
  ok : A → Result E A
  err : E → Result E A

-- `?`, and `map_err`
infixl 10 ◌>>=◌
abbrev pub ◌>>=◌ {ℓ κ μ} :
    {E : Type ℓ} {A : Type κ} {B : Type μ} → Result E A → (A → Result E B) → Result E B
ok a >>= f = f a
err e >>= f = err e

abbrev pub map_err {ℓ κ μ} :
    {E : Type ℓ} {F : Type κ} {A : Type μ} → (E → F) → Result E A → Result F A
map_err f (ok a) = ok a
map_err f (err e) = err (f e)

pub Result-cases {ℓ κ} :
    {E : Type ℓ} {A : Type κ} (r : Result E A) → ((a : A) × (r ≡ ok a)) ⊎ ((e : E) × (r ≡ err e))
Result-cases (ok a) = inl (a, refl)
Result-cases (err e) = inr (e, refl)

-- `str::split` by a predicate: always at least one segment
abbrev prepend : ℕ → List Text → List Text
prepend c [] = (c ∷ []) ∷ []
prepend c (w ∷ ws) = (c ∷ w) ∷ ws

unfoldable pub split : (ℕ → Bool) → Text → List Text
split p [] = [] ∷ []
split p (c ∷ s) = if p c then [] ∷ split p s else prepend c (split p s)

-- `Display` of an integer, with `fuel` digits at most, in front of a text
unfoldable pub decimal : ℕ → ℕ → Text → Text
decimal zero n rest = rest
decimal (suc fuel) n rest =
    let more = decimal fuel (n / 10) ((b'0' + n % 10) ∷ rest) in
    if ltb n 10 then (b'0' + n) ∷ rest else more

-- 20 digits are enough for a `usize`
abbrev pub show_usize : ℕ → Text
show_usize n = decimal 20 n []

-- `ParseIntError`
pub data ParseIntError : Type 0 where
  empty invalid_digit overflow : ParseIntError

-- the loop of `usize::from_str` with its checked operations
unfoldable pub parse_digits : ℕ → Text → Result ParseIntError ℕ
parse_digits acc [] = ok acc
parse_digits acc (c ∷ s) =
    let rest = parse_digits (acc * 10 + (c - b'0')) s in
    if leb b'0' c && leb c b'9'
    then (if ltb (acc * 10 + (c - b'0')) (2 ^ 64) then rest else err overflow)
    else err invalid_digit

-- a sign must have digits behind it
abbrev parse_unsigned : Text → Result ParseIntError ℕ
parse_unsigned [] = err invalid_digit
parse_unsigned (c ∷ s) = parse_digits 0 (c ∷ s)

-- `usize::from_str`
unfoldable pub parse_usize : Text → Result ParseIntError ℕ
unfolding parse_digits
parse_usize [] = err empty
parse_usize (c ∷ s) = if c == b'+' then parse_unsigned s else parse_digits 0 (c ∷ s)

digit_step :
    (d acc : ℕ) (s : Text)
    → d < 10
    → acc * 10 + d < 2 ^ 64
    → parse_digits acc ((b'0' + d) ∷ s) ≡ parse_digits (acc * 10 + d) s
unfolding parse_digits
digit_step d acc s hd h = let same : b'0' + d - b'0' ≡ d = omega arith in rw same (ground arith)

tenth-lt : (n fuel : ℕ) → n < 10 ^ suc fuel → n / 10 < 10 ^ fuel
tenth-lt n fuel h = let e : 10 ^ suc fuel ≡ 10 ^ fuel * 10 = pow-suc 10 fuel in omega (arith, e)

-- Reading back the digits of `n` that stand before a rest leaves the value `n` before that rest.
parse_digits-decimal :
    (fuel n : ℕ) (rest : Text)
    → n < 10 ^ fuel
    → n < 2 ^ 64
    → parse_digits 0 (decimal fuel n rest) ≡ parse_digits n rest
unfolding decimal
parse_digits-decimal zero n rest h small = ap (λ k. parse_digits k rest) (omega arith)
parse_digits-decimal (suc fuel) n rest h small = elim (Bool-cases (ltb n 10)) [
  | inl one ↦ rw one (
      digit_step n 0 rest (ground arith) (omega arith)
      ∙ ap (λ k. parse_digits k rest) {x = 0 * 10 + n} (omega arith))
  | inr many ↦ rw many (
      parse_digits-decimal fuel (n / 10) ((b'0' + n % 10) ∷ rest) (tenth-lt n fuel h) (omega arith)
      ∙ digit_step (n % 10) (n / 10) rest (omega arith) (omega arith)
      ∙ ap (λ k. parse_digits k rest) (omega arith))
]

-- A printed number begins with a digit.
decimal-cons :
    (fuel n : ℕ) (rest : Text)
    → (c : ℕ) × (s : Text) × (decimal (suc fuel) n rest ≡ c ∷ s) × (b'0' ≤ c)
unfolding decimal
decimal-cons zero n rest = elim (Bool-cases (ltb n 10)) [
  | inl one ↦ (b'0' + n, rest, rw one, omega arith)
  | inr many ↦ (b'0' + n % 10, rest, rw many, omega arith)
]
decimal-cons (suc fuel) n rest = elim (Bool-cases (ltb n 10)) [
  | inl one ↦ (b'0' + n, rest, rw one, omega arith)
  | inr many ↦
      let (c, s, e, h) = decimal-cons fuel (n / 10) ((b'0' + n % 10) ∷ rest) in (c, s, rw many e, h)
]

-- A `usize` is read back from its decimal digits.
pub parse_usize-show_usize : (n : ℕ) → n < 2 ^ 64 → parse_usize (show_usize n) ≡ ok n
unfolding parse_usize
parse_usize-show_usize n h =
    let (c, s, e, digit) = decimal-cons 19 n [] in
    let no_sign : (c == b'+') ≡ false = ground arith in
    rw (e, no_sign) (ap (parse_digits 0) (sym e) ∙ parse_digits-decimal 20 n [] (omega arith) h)

-- the digits of a text
abbrev pub Digits : Text → Type 0
Digits [] = Unit {0}
Digits (c ∷ s) = ((b'0' ≤ c) × (c ≤ b'9')) × Digits s

pub decimal-Digits : (fuel n : ℕ) (rest : Text) → Digits rest → Digits (decimal fuel n rest)
unfolding decimal
decimal-Digits zero n rest h = h
decimal-Digits (suc fuel) n rest h = elim (Bool-cases (ltb n 10)) [
  | inl one ↦ rw one (ground arith, h)
  | inr many ↦ rw many (decimal-Digits fuel (n / 10) ((b'0' + n % 10) ∷ rest) (omega arith, h))
]

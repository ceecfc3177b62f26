-- ===== src/Prelude/Lists.antt =====
-- Lists measured and indexed by native numbers, under the library's names.
use Prim.Native.Nat.{ℕ, zero, suc, ◌+◌, ◌-◌, ◌≤◌, min}
use mathlib.Core.Path.{◌≡◌, refl, sym, ◌∙◌, ap}
use mathlib.Core.List.{foldl, append-nil, append_assoc, List, [], ◌∷◌, ◌++◌, map}
use mathlib.Core.Option.{Option, none, some}
use native.Mathlib.Nat.{zero-add, suc-add}
use native.Mathlib.Omega.{arith}

module _ {ℓ} {A : Type ℓ} where
  abbrev pub length : List A → ℕ
  length [] = 0
  length (x ∷ xs) = suc (length xs)

  abbrev pub get_elem? : List A → ℕ → Option A
  get_elem? [] i = none
  get_elem? (x ∷ xs) zero = some x
  get_elem? (x ∷ xs) (suc i) = get_elem? xs i

  abbrev pub drop : ℕ → List A → List A
  drop zero xs = xs
  drop (suc n) [] = []
  drop (suc n) (x ∷ xs) = drop n xs

  pub length-append : (xs ys : List A) → length (xs ++ ys) ≡ length xs + length ys
  length-append [] ys = omega arith
  length-append (x ∷ xs) ys = omega (arith, length-append xs ys)

  pub length-drop : (n : ℕ) (xs : List A) → length (drop n xs) ≡ length xs - n
  length-drop zero xs = omega arith
  length-drop (suc n) [] = omega arith
  length-drop (suc n) (x ∷ xs) = omega (arith, length-drop n xs)

  pub drop-append : (n : ℕ) (xs ys : List A) → n ≤ length xs → drop n (xs ++ ys) ≡ drop n xs ++ ys
  drop-append zero xs ys h = refl
  drop-append (suc n) [] ys h = absurd (omega arith)
  drop-append (suc n) (x ∷ xs) ys h = drop-append n xs ys (omega arith)

  drop-nil : (n : ℕ) → drop n [] ≡ []
  drop-nil zero = refl
  drop-nil (suc n) = refl

  pub drop-drop : (n k : ℕ) (xs : List A) → drop n (drop k xs) ≡ drop (k + n) xs
  drop-drop n zero xs = rw zero-add
  drop-drop n (suc k) [] = rw (drop-nil n, drop-nil (suc k + n))
  drop-drop n (suc k) (x ∷ xs) = rw suc-add (drop-drop n k xs)

  -- the last `n` elements of a list, or all of it
  abbrev pub keep_last : ℕ → List A → List A
  keep_last n xs = drop (length xs - n) xs

module _ {ℓ} {A : Type ℓ} where
  pub length-map {κ} : {B : Type κ} (xs : List A) (f : A → B) → length (map f xs) ≡ length xs
  length-map [] f = refl
  length-map (x ∷ xs) f = ap suc (length-map xs f)

  pub map-drop {κ} :
      {B : Type κ} (f : A → B) (n : ℕ) (xs : List A) → map f (drop n xs) ≡ drop n (map f xs)
  map-drop f zero xs = refl
  map-drop f (suc n) [] = refl
  map-drop f (suc n) (x ∷ xs) = map-drop f n xs

module _ {ℓ} {A : Type ℓ} where
  pub length-keep_last : (n : ℕ) (xs : List A) → length (keep_last n xs) ≡ min n (length xs)
  length-keep_last n xs = omega (arith, length-drop (length xs - n) xs)

  -- Dropping early changes nothing that is kept in the end.
  pub keep_last-append :
      (n : ℕ) (xs ys : List A) → keep_last n (keep_last n xs ++ ys) ≡ keep_last n (xs ++ ys)
  keep_last-append n xs ys =
      rw (← drop-append k xs ys (omega arith), drop-drop) (ap (λ j. drop j (xs ++ ys)) count)
    where
      k : ℕ
      k = length xs - n

      count : k + (length (drop k (xs ++ ys)) - n) ≡ length (xs ++ ys) - n
      count = omega (arith, length-drop k (xs ++ ys), length-append xs ys)

module _ {ℓ κ} {A : Type ℓ} {B : Type κ} where
  pub map-keep_last :
      (f : A → B) (n : ℕ) (xs : List A) → map f (keep_last n xs) ≡ keep_last n (map f xs)
  map-keep_last f n xs = rw (map-drop, length-map)

module _ {ℓ} {A : Type ℓ} where
  pub keep_last-nil : (n : ℕ) → keep_last {A = A} n [] ≡ []
  keep_last-nil n = drop-nil (0 - n)

module _ {ℓ κ} {A : Type ℓ} {B : Type κ} where
  -- Collecting in a loop is `map`.
  pub foldl-snoc :
      (f : A → B) (acc : List B) (xs : List A)
      → foldl (λ ys x. ys ++ f x ∷ []) acc xs ≡ acc ++ map f xs
  foldl-snoc f acc [] = sym (append-nil acc)
  foldl-snoc f acc (x ∷ xs) =
      foldl-snoc f (acc ++ f x ∷ []) xs ∙ append_assoc acc (f x ∷ []) (map f xs)

module _ {ℓ} {A : Type ℓ} where
  pub get_elem?-none : (xs : List A) (i : ℕ) → length xs ≤ i → get_elem? xs i ≡ none
  get_elem?-none [] i h = refl
  get_elem?-none (x ∷ xs) zero h = absurd (omega arith)
  get_elem?-none (x ∷ xs) (suc i) h = get_elem?-none xs i (omega arith)

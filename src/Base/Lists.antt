-- ===== src/Base/Lists.antt =====
-- Lists measured and indexed by native numbers, under the library's names, and the monad in which
-- `none` is undefined behaviour.
use Prim.Native.Nat.{ℕ, zero, suc, ◌+◌, ◌<◌, ◌≤◌}
use mathlib.Core.Path.{◌≡◌, refl, ap, ◌∙◌}
use mathlib.Core.List.{List, [], ◌∷◌, ◌++◌}
use mathlib.Core.Option.{Option, none, some}
use native.Mathlib.Omega.{arith}

-- `none` is undefined behaviour, such as an access outside every live object.
infixl 5 ◌>>=◌
abbrev pub ◌>>=◌ {ℓ κ} : {A : Type ℓ} {B : Type κ} → Option A → (A → Option B) → Option B
none >>= f = none
some a >>= f = f a

module _ {ℓ} {A : Type ℓ} where
  abbrev pub length : List A → ℕ
  length [] = 0
  length (x ∷ xs) = suc (length xs)

  abbrev pub get_elem? : List A → ℕ → Option A
  get_elem? [] i = none
  get_elem? (x ∷ xs) zero = some x
  get_elem? (x ∷ xs) (suc i) = get_elem? xs i

  abbrev pub take : ℕ → List A → List A
  take zero xs = []
  take (suc n) [] = []
  take (suc n) (x ∷ xs) = x ∷ take n xs

  pub get_elem?_total : (xs : List A) (i : ℕ) → i < length xs → (x : A) × (get_elem? xs i ≡ some x)
  get_elem?_total [] i h = elim h [ ]
  get_elem?_total (x ∷ xs) zero h = (x, refl)
  get_elem?_total (x ∷ xs) (suc i) h = get_elem?_total xs i (omega arith)

  pub length-append : (xs ys : List A) → length (xs ++ ys) ≡ length xs + length ys
  length-append [] ys = omega arith
  length-append (x ∷ xs) ys = omega (arith, length-append xs ys)

  pub take_of_length-le : (n : ℕ) (xs : List A) → length xs ≤ n → take n xs ≡ xs
  take_of_length-le zero [] fits = refl
  take_of_length-le (suc n) [] fits = refl
  take_of_length-le (suc n) (x ∷ rest) fits =
      ap (λ l. x ∷ l) (take_of_length-le n rest (omega arith))
  take_of_length-le zero (x ∷ rest) fits = absurd (omega arith)

  pub length-take-le : (n : ℕ) (xs : List A) → length (take n xs) ≤ n
  length-take-le zero xs = omega arith
  length-take-le (suc n) [] = omega arith
  length-take-le (suc n) (x ∷ xs) = omega (arith, length-take-le n xs)

  pub length-take : (n : ℕ) (xs : List A) → n ≤ length xs → length (take n xs) ≡ n
  length-take zero xs h = refl
  length-take (suc n) [] h = absurd (omega arith)
  length-take (suc n) (x ∷ xs) h = ap suc (length-take n xs (omega arith))

  pub get_elem?-take :
      (n : ℕ) (xs : List A) (j : ℕ)
      → j < length (take n xs)
      → get_elem? xs j ≡ get_elem? (take n xs) j
  get_elem?-take zero xs j h = absurd (omega arith)
  get_elem?-take (suc n) [] j h = refl
  get_elem?-take (suc n) (x ∷ xs) zero h = refl
  get_elem?-take (suc n) (x ∷ xs) (suc j) h = get_elem?-take n xs j (omega arith)

  pub take-append_of_le : (n : ℕ) (xs ys : List A) → n ≤ length xs → take n (xs ++ ys) ≡ take n xs
  take-append_of_le zero xs ys h = refl
  take-append_of_le (suc n) [] ys h = absurd (omega arith)
  take-append_of_le (suc n) (x ∷ xs) ys h = ap (◌∷◌ x) (take-append_of_le n xs ys (omega arith))

  pub take-append_length :
      (xs ys : List A) (n : ℕ) → take (length xs + n) (xs ++ ys) ≡ xs ++ take n ys
  take-append_length [] ys n = let e : 0 + n ≡ n = omega arith in ap (λ k. take k ys) e
  take-append_length (x ∷ xs) ys n =
      let e : suc (length xs) + n ≡ suc (length xs + n) = omega arith in
      ap (λ k. take k (x ∷ xs ++ ys)) e ∙ ap (◌∷◌ x) (take-append_length xs ys n)

  -- `rest` is what stands in `xs` from index `i` on.
  abbrev pub From : ℕ → List A → List A → Type ℓ
  From i xs rest = (j : ℕ) → j < length rest → get_elem? xs (i + j) ≡ get_elem? rest j

module _ {ℓ} {A : Type ℓ} where
  pub From-tail :
      (i : ℕ) (xs : List A) (x : A) (rest : List A) → From i xs (x ∷ rest) → From (i + 1) xs rest
  From-tail i xs x rest h j lt =
      let e : i + 1 + j ≡ i + suc j = omega arith in ap (get_elem? xs) e ∙ h (suc j) (omega arith)

  pub From-head :
      (i : ℕ) (xs : List A) (x : A) (rest : List A) → From i xs (x ∷ rest) → get_elem? xs i ≡ some x
  From-head i xs x rest h =
      let e : i ≡ i + 0 = omega arith in ap (get_elem? xs) e ∙ h 0 (omega arith)

  pub From-take : (n : ℕ) (xs : List A) → From 0 xs (take n xs)
  From-take n xs j lt =
      let e : 0 + j ≡ j = omega arith in ap (get_elem? xs) e ∙ get_elem?-take n xs j lt

  pub From-all : (xs : List A) → From 0 xs xs
  From-all xs j lt = let e : 0 + j ≡ j = omega arith in ap (get_elem? xs) e

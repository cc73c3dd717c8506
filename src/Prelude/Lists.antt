-- ===== src/Prelude/Lists.antt =====
-- Lists measured and indexed by native numbers, under the library's names.
use Prim.Native.Nat.{ℕ, zero, suc, ◌+◌, min}
use mathlib.Core.Path.{◌≡◌, refl}
use mathlib.Core.Logic.{◌⊎◌, inl, inr}
use mathlib.Core.List.{List, [], ◌∷◌, ◌++◌}
use mathlib.Core.Option.{Option, none, some}
use native.Mathlib.Omega.{arith}

module _ {ℓ} {A : Type ℓ} where
  abbrev pub length : List A → ℕ
  length [] = 0
  length (x ∷ xs) = suc (length xs)

  abbrev pub get_elem? : List A → ℕ → Option A
  get_elem? [] i = none
  get_elem? (x ∷ xs) zero = some x
  get_elem? (x ∷ xs) (suc i) = get_elem? xs i

  -- `l.pop(i)`, for an index in range.
  abbrev pub remove_at : ℕ → List A → List A
  remove_at i [] = []
  remove_at zero (x ∷ xs) = xs
  remove_at (suc i) (x ∷ xs) = x ∷ remove_at i xs

  abbrev pub take : ℕ → List A → List A
  take zero xs = []
  take (suc n) [] = []
  take (suc n) (x ∷ xs) = x ∷ take n xs

  abbrev pub drop : ℕ → List A → List A
  drop zero xs = xs
  drop (suc n) [] = []
  drop (suc n) (x ∷ xs) = drop n xs

  abbrev pub head? : List A → Option A
  head? [] = none
  head? (x ∷ xs) = some x

  -- `l[-1]`, for a list that is not empty.
  abbrev pub get_last? : List A → Option A
  get_last? [] = none
  get_last? (x ∷ []) = some x
  get_last? (x ∷ y ∷ l) = get_last? (y ∷ l)

  abbrev pub All {κ} : (A → Type κ) → List A → Type κ
  All P [] = Unit
  All P (x ∷ xs) = P x × All P xs

  pub List-cases : (l : List A) → (l ≡ []) ⊎ ((x : A) × (xs : List A) × (l ≡ x ∷ xs))
  List-cases [] = inl refl
  List-cases (x ∷ xs) = inr (x, xs, refl)

  pub append-nil_parts : (xs ys : List A) → xs ++ ys ≡ [] → (xs ≡ []) × (ys ≡ [])
  append-nil_parts [] ys h = (refl, h)
  append-nil_parts (x ∷ xs) ys h = cc

  pub length-append : (xs ys : List A) → length (xs ++ ys) ≡ length xs + length ys
  length-append [] ys = omega arith
  length-append (x ∷ xs) ys = omega (arith, length-append xs ys)

  pub length-take : (n : ℕ) (xs : List A) → length (take n xs) ≡ min n (length xs)
  length-take zero xs = omega arith
  length-take (suc n) [] = omega arith
  length-take (suc n) (x ∷ xs) = omega (arith, length-take n xs)

  pub All-append {κ} : (P : A → Type κ) (xs ys : List A) → All P xs → All P ys → All P (xs ++ ys)
  All-append P [] ys hx hy = hy
  All-append P (x ∷ xs) ys hx hy = (hx.0, All-append P xs ys hx.1 hy)

  pub All-take {κ} : (P : A → Type κ) (n : ℕ) (xs : List A) → All P xs → All P (take n xs)
  All-take P zero xs h = tt
  All-take P (suc n) [] h = tt
  All-take P (suc n) (x ∷ xs) h = (h.0, All-take P n xs h.1)

  pub All-map {κ ν} :
      (P : A → Type κ) (Q : A → Type ν) (imp : (x : A) → P x → Q x) (xs : List A)
      → All P xs
      → All Q xs
  All-map P Q imp [] h = tt
  All-map P Q imp (x ∷ xs) h = (imp x h.0, All-map P Q imp xs h.1)

-- ===== src/Prelude/Sorted.antt =====
-- Ascending lists of numbers: insertion, sorting, and the position of a number.
use Prim.Native.Nat.{ℕ, zero, suc, ◌≤◌, ◌<◌}
use mathlib.Core.Path.{◌≡◌, refl, ap, ◌∙◌}
use mathlib.Core.Logic.{inl, inr, ◌≢◌}
use mathlib.Core.Bool.{Bool, true, false, ◌||◌, ◌&&◌}
use mathlib.Core.List.{List, [], ◌∷◌, ◌++◌}
use native.Mathlib.Omega.{arith}
use somethingtrade.Prelude.Tests.{leb, ltb, ◌==◌, if◌then◌else◌, Bool-cases}
use somethingtrade.Prelude.Lists.{All, remove_at, length}

-- `bisect.insort(l, x)`
abbrev pub insort : ℕ → List ℕ → List ℕ
insort x [] = x ∷ []
insort x (y ∷ l) = if leb x y then x ∷ y ∷ l else y ∷ insort x l

-- `sorted(l)`
abbrev pub sorted : List ℕ → List ℕ
sorted [] = []
sorted (x ∷ l) = insort x (sorted l)

-- `bisect.bisect_left(l, x)`: how many numbers at the front of `l` are less than `x`.
abbrev pub bisect_left : List ℕ → ℕ → ℕ
bisect_left [] x = 0
bisect_left (y ∷ l) x = if ltb y x then suc (bisect_left l x) else 0

-- `l[i] == x`, for an index in range.
abbrev pub holds_at : List ℕ → ℕ → ℕ → Bool
holds_at [] i x = false
holds_at (y ∷ l) zero x = y == x
holds_at (y ∷ l) (suc i) x = holds_at l i x

abbrev pub contains : List ℕ → ℕ → Bool
contains [] x = false
contains (y ∷ l) x = (y == x) || contains l x

abbrev pub IsAscending : List ℕ → Type 0
IsAscending [] = Unit
IsAscending (x ∷ l) = All (λ y. x ≤ y) l × IsAscending l

abbrev pub IsStrict : List ℕ → Type 0
IsStrict [] = Unit
IsStrict (x ∷ l) = All (λ y. x < y) l × IsStrict l

abbrev pub Distinct : List ℕ → Type 0
Distinct [] = Unit
Distinct (x ∷ l) = (contains l x ≡ false) × Distinct l

pub length-insort : (x : ℕ) (l : List ℕ) → length (insort x l) ≡ suc (length l)
length-insort x [] = refl
length-insort x (y ∷ l) = ground (arith, length-insort x l)

pub length-sorted : (l : List ℕ) → length (sorted l) ≡ length l
length-sorted [] = refl
length-sorted (x ∷ l) = omega (arith, length-insort x (sorted l), length-sorted l)

pub insort_comm : (x y : ℕ) (l : List ℕ) → insort x (insort y l) ≡ insort y (insort x l)
insort_comm x y [] = ground arith
insort_comm x y (z ∷ l) = ground (arith, insort_comm x y l)

pub sorted-append_one : (l : List ℕ) (x : ℕ) → sorted (l ++ x ∷ []) ≡ insort x (sorted l)
sorted-append_one [] x = refl
sorted-append_one (y ∷ l) x = ap (insort y) (sorted-append_one l x) ∙ insort_comm y x (sorted l)

All-insort : (P : ℕ → Type 0) (x : ℕ) (l : List ℕ) → P x → All P l → All P (insort x l)
All-insort P x [] p h = (p, tt)
All-insort P x (y ∷ l) p h = elim (Bool-cases (leb x y)) [
  | inl e ↦ rw e (p, h)
  | inr e ↦ rw e (h.0, All-insort P x l p h.1)
]

All-le_trans : (a b : ℕ) (l : List ℕ) → a ≤ b → All (λ y. b ≤ y) l → All (λ y. a ≤ y) l
All-le_trans a b [] h k = tt
All-le_trans a b (x ∷ l) h k = (omega arith, All-le_trans a b l h k.1)

insort-IsAscending : (x : ℕ) (l : List ℕ) → IsAscending l → IsAscending (insort x l)
insort-IsAscending x [] h = (tt, tt)
insort-IsAscending x (y ∷ l) h = elim (Bool-cases (leb x y)) [
  | inl e ↦ rw e ((ground arith, All-le_trans x y l (ground arith) h.0), h)
  | inr e ↦ rw e (All-insort (λ z. y ≤ z) x l (ground arith) h.0, insort-IsAscending x l h.1)
]

pub sorted-IsAscending : (l : List ℕ) → IsAscending (sorted l)
sorted-IsAscending [] = tt
sorted-IsAscending (x ∷ l) = insort-IsAscending x (sorted l) (sorted-IsAscending l)

pub contains-insort : (x y : ℕ) (l : List ℕ) → contains (insort x l) y ≡ ((x == y) || contains l y)
contains-insort x y [] = ground arith
contains-insort x y (z ∷ l) = ground (arith, contains-insort x y l)

pub contains-sorted : (y : ℕ) (l : List ℕ) → contains (sorted l) y ≡ contains l y
contains-sorted y [] = refl
contains-sorted y (x ∷ l) = rw contains-insort (rw (contains-sorted y l))

not-contains-All_ne : (x : ℕ) (l : List ℕ) → contains l x ≡ false → All (λ y. y ≢ x) l
not-contains-All_ne x [] h = tt
not-contains-All_ne x (y ∷ l) h = (ground arith, not-contains-All_ne x l (ground arith))

insort-Distinct : (x : ℕ) (l : List ℕ) → contains l x ≡ false → Distinct l → Distinct (insort x l)
insort-Distinct x [] c d = (refl, tt)
insort-Distinct x (y ∷ l) c d = elim (Bool-cases (leb x y)) [
  | inl e ↦ rw e (c, d)
  | inr e ↦ rw e (ground (arith, contains-insort x y l), insort-Distinct x l (ground arith) d.1)
]

pub sorted-Distinct : (l : List ℕ) → Distinct l → Distinct (sorted l)
sorted-Distinct [] d = tt
sorted-Distinct (x ∷ l) d =
    insort-Distinct x (sorted l) (contains-sorted x l ∙ d.0) (sorted-Distinct l d.1)

All-lt : (x : ℕ) (l : List ℕ) → All (λ y. x ≤ y) l → All (λ y. y ≢ x) l → All (λ y. x < y) l
All-lt x [] h k = tt
All-lt x (y ∷ l) h k = (omega arith, All-lt x l h.1 k.1)

pub IsStrict-of_Distinct : (l : List ℕ) → IsAscending l → Distinct l → IsStrict l
IsStrict-of_Distinct [] a d = tt
IsStrict-of_Distinct (x ∷ l) a d =
    (All-lt x l a.0 (not-contains-All_ne x l d.0), IsStrict-of_Distinct l a.1 d.1)

pub Distinct-append_one :
    (l : List ℕ) (x : ℕ) → Distinct l → contains l x ≡ false → Distinct (l ++ x ∷ [])
Distinct-append_one [] x d c = (refl, tt)
Distinct-append_one (y ∷ l) x d c =
    (ground (arith, contains-append_one l x y), Distinct-append_one l x d.1 (ground arith))
  where
    contains-append_one :
        (l : List ℕ) (x y : ℕ) → contains (l ++ x ∷ []) y ≡ (contains l y || (x == y))
    contains-append_one [] x y = ground arith
    contains-append_one (z ∷ l) x y = ground (arith, contains-append_one l x y)

-- The removal of `x` at the position that `bisect_left` finds, if it stands there.
abbrev pub discard : ℕ → List ℕ → List ℕ
discard x l =
    let index = bisect_left l x in
    if ltb index (length l) && holds_at l index x then remove_at index l else l

pub discard-cons :
    (x y : ℕ) (l : List ℕ)
    → discard x (y ∷ l) ≡ (if ltb y x then y ∷ discard x l else if y == x then l else y ∷ l)
discard-cons x y l = ground arith

pub discard-insort_self : (x : ℕ) (l : List ℕ) → discard x (insort x l) ≡ l
discard-insort_self x [] = ground arith
discard-insort_self x (y ∷ l) =
    ground (arith, discard-cons x y (insort x l), discard-cons x x (y ∷ l), discard-insort_self x l)

insort-at_front : (x : ℕ) (l : List ℕ) → All (λ y. x ≤ y) l → insort x l ≡ x ∷ l
insort-at_front x [] h = refl
insort-at_front x (y ∷ l) h = ground arith

pub discard-insort_ne :
    (x k : ℕ) (l : List ℕ) → IsAscending l → k ≢ x → discard x (insort k l) ≡ insort k (discard x l)
discard-insort_ne x k [] a n = ground arith
discard-insort_ne x k (y ∷ l) a n = ground (
  arith,
  discard-cons x y (insort k l),
  discard-cons x k (y ∷ l),
  discard-cons x y l,
  discard-insort_ne x k l a.1 n,
  lower,
)
  where
    lower : leb k y ≡ true → insort k l ≡ k ∷ l
    lower e = insort-at_front k l (All-le_trans k y l (ground arith) a.0)

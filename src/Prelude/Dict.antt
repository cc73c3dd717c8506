-- ===== src/Prelude/Dict.antt =====
-- Python's `dict` with number keys, as an association list in insertion order.
use Prim.Native.Nat.{ℕ}
use mathlib.Core.Path.{◌≡◌, refl}
use mathlib.Core.Logic.{inl, inr}
use mathlib.Core.Bool.{Bool, true, false}
use mathlib.Core.List.{List, [], ◌∷◌, ◌++◌}
use mathlib.Core.Option.{Option, none, some}
use native.Mathlib.Omega.{arith}
use somethingtrade.Prelude.Tests.{◌==◌, if◌then◌else◌, Bool-cases}
use somethingtrade.Prelude.Lists.{length}
use somethingtrade.Prelude.Sorted.{contains, Distinct, Distinct-append_one}

abbrev pub Dict {ℓ} : Type ℓ → Type ℓ
Dict V = List (ℕ × V)

module _ {ℓ} {V : Type ℓ} where
  -- `d.get(k)`
  abbrev pub get : Dict V → ℕ → Option V
  get [] k = none
  get ((j, v) ∷ d) k = if j == k then some v else get d k

  -- `d[k] = v`: an old key keeps its place, a new one comes last.
  abbrev pub put : Dict V → ℕ → V → Dict V
  put [] k v = (k, v) ∷ []
  put ((j, w) ∷ d) k v = if j == k then (j, v) ∷ d else (j, w) ∷ put d k v

  -- `d.pop(k, None)`
  abbrev pub remove : Dict V → ℕ → Dict V
  remove [] k = []
  remove ((j, v) ∷ d) k = let rest = remove d k in if j == k then rest else (j, v) ∷ rest

  -- `list(d.keys())`
  abbrev pub keys : Dict V → List ℕ
  keys [] = []
  keys ((j, v) ∷ d) = j ∷ keys d

  -- `k in d`
  abbrev pub has : Dict V → ℕ → Bool
  has d k = contains (keys d) k

  pub length-keys : (d : Dict V) → length (keys d) ≡ length d
  length-keys [] = refl
  length-keys ((j, v) ∷ d) = omega (arith, length-keys d)

  pub get-put :
      (d : Dict V) (k j : ℕ) (v : V) → get (put d k v) j ≡ (if k == j then some v else get d j)
  get-put [] k j v = refl
  get-put ((i, w) ∷ d) k j v = ground (arith, get-put d k j v)

  pub get-remove : (d : Dict V) (k j : ℕ) → get (remove d k) j ≡ (if k == j then none else get d j)
  get-remove [] k j = ground arith
  get-remove ((i, w) ∷ d) k j = ground (arith, get-remove d k j)

  pub keys-put :
      (d : Dict V) (k : ℕ) (v : V)
      → keys (put d k v) ≡ (if has d k then keys d else keys d ++ k ∷ [])
  keys-put [] k v = refl
  keys-put ((j, w) ∷ d) k v = ground (arith, keys-put d k v)

  pub has-remove_self : (d : Dict V) (k : ℕ) → has (remove d k) k ≡ false
  has-remove_self [] k = refl
  has-remove_self ((j, w) ∷ d) k = ground (arith, has-remove_self d k)

  pub has-remove : (d : Dict V) (k j : ℕ) → has d j ≡ false → has (remove d k) j ≡ false
  has-remove [] k j h = refl
  has-remove ((i, w) ∷ d) k j h = ground (arith, has-remove d k j)

  pub remove_absent : (d : Dict V) (k : ℕ) → has d k ≡ false → remove d k ≡ d
  remove_absent [] k h = refl
  remove_absent ((j, w) ∷ d) k h = ground (arith, remove_absent d k)

  pub put-Distinct : (d : Dict V) (k : ℕ) (v : V) → Distinct (keys d) → Distinct (keys (put d k v))
  put-Distinct d k v h = elim (Bool-cases (has d k)) [
    | inl old ↦ rw (keys-put, old) h
    | inr new ↦ rw (keys-put, new) (Distinct-append_one (keys d) k h new)
  ]

  pub remove-Distinct : (d : Dict V) (k : ℕ) → Distinct (keys d) → Distinct (keys (remove d k))
  remove-Distinct [] k h = tt
  remove-Distinct ((j, w) ∷ d) k h = elim (Bool-cases (j == k)) [
    | inl here ↦ rw here (remove-Distinct d k h.1)
    | inr other ↦ rw other (has-remove d k j h.0, remove-Distinct d k h.1)
  ]

  -- A key is there exactly when it has a value.
  pub get-has : (d : Dict V) (k : ℕ) → has d k ≡ true → (v : V) × (get d k ≡ some v)
  get-has [] k h = cc
  get-has ((j, w) ∷ d) k h = elim (Bool-cases (j == k)) [
    | inl here ↦ (w, rw here refl)
    | inr other ↦ let (v, e) = get-has d k (ground arith) in (v, rw other e)
  ]

  pub has-get : (d : Dict V) (k : ℕ) (v : V) → get d k ≡ some v → has d k ≡ true
  has-get [] k v h = cc
  has-get ((j, w) ∷ d) k v h = ground (arith, has-get d k v)

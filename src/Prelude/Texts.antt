-- ===== src/Prelude/Texts.antt =====
-- Python's `dict` with text keys, as an association list in insertion order.
use mathlib.Core.Path.{◌≡◌, refl}
use mathlib.Core.Logic.{inl, inr}
use mathlib.Core.Bool.{Bool, true, false}
use mathlib.Core.List.{List, [], ◌∷◌}
use mathlib.Core.Option.{Option, none, some}
use Prim.Native.String.{String}
use text.Mathlib.Text.{◌==◌ as str_eq}
use text.Mathlib.TextEquality.{eq_iff}
use somethingtrade.Prelude.Tests.{if◌then◌else◌, Bool-cases}

abbrev pub Texts {ℓ} : Type ℓ → Type ℓ
Texts V = List (String × V)

pub str_eq_refl : (k : String) → str_eq k k ≡ true
str_eq_refl k = (eq_iff k k).1 refl

module _ {ℓ} {V : Type ℓ} where
  -- `d.get(k)`
  abbrev pub find : Texts V → String → Option V
  find [] k = none
  find ((j, v) ∷ d) k = if str_eq j k then some v else find d k

  -- `d[k] = v`: an old key keeps its place, a new one comes last.
  abbrev pub set : Texts V → String → V → Texts V
  set [] k v = (k, v) ∷ []
  set ((j, w) ∷ d) k v = if str_eq j k then (j, v) ∷ d else (j, w) ∷ set d k v

  pub find-set : (d : Texts V) (k : String) (v : V) → find (set d k v) k ≡ some v
  find-set [] k v = rw (str_eq_refl k) refl
  find-set ((j, w) ∷ d) k v = elim (Bool-cases (str_eq j k)) [
    | inl here ↦ rw (here, here) refl
    | inr other ↦ rw (other, other) (find-set d k v)
  ]

  pub find-set_other :
      (d : Texts V) (k j : String) (v : V) → str_eq k j ≡ false → find (set d k v) j ≡ find d j
  find-set_other [] k j v h = rw h refl
  find-set_other ((i, w) ∷ d) k j v h = elim (Bool-cases (str_eq i k)) [
    | inl here ↦
        let other : str_eq i j ≡ false = rw ((eq_iff i k).0 here) h in rw (here, other) refl
    | inr away ↦ rw away (elim (Bool-cases (str_eq i j)) [
      | inl found ↦ rw found refl
      | inr other ↦ rw other (find-set_other d k j v h)
    ])
  ]

-- `x in s`, for a set of texts as a list.
abbrev pub member : List String → String → Bool
member [] k = false
member (j ∷ s) k = if str_eq j k then true else member s k

-- `s.add(x)`
abbrev pub add : String → List String → List String
add k s = if member s k then s else k ∷ s

pub member-add : (k id : String) (l : List String) → member l id ≡ true → member (add k l) id ≡ true
member-add k id l h = elim (Bool-cases (member l k)) [
  | inl old ↦ rw old h
  | inr new ↦
      rw new (elim (Bool-cases (str_eq k id)) [ inl here ↦ rw here refl | inr other ↦ rw other h ])
]

pub member-add_self : (k : String) (l : List String) → member (add k l) k ≡ true
member-add_self k l = elim (Bool-cases (member l k)) [
  | inl old ↦ rw (old, old) refl
  | inr new ↦ rw (new, str_eq_refl k) refl
]

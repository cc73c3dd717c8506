-- ===== src/Market/Window.antt =====
-- The window of the price history, and the baseline of a return.
use somethingtrade.Prelude.{
  ℕ, ◌+◌, ◌≤◌, ◌≡◌, refl, subst, ◌∙◌, ◌⊎◌, inl, inr, Bool, true, false, Option, none, some, List,
  [], ◌∷◌, ◌++◌, ltb, leb, leb→le, if◌then◌else◌, Bool-cases, All, arith,
}
use somethingtrade.Market.Types.{Price, SymbolState, max_return_window_ns}
use somethingtrade.Market.History.{drop_before, price_from, price_at_or_before, append_price}

-- No price is older than one before it.
abbrev pub IsOrdered : List Price → Type 0
IsOrdered [] = Unit
IsOrdered (p ∷ l) = All (λ q. p.0 ≤ q.0) l × IsOrdered l

-- The price is at most the window old, and not of a later time.
abbrev pub InWindow : ℕ → Price → Type 0
InWindow now p = (now ≤ p.0 + max_return_window_ns) × (p.0 ≤ now)

abbrev pub Held : List Price → Price → Type 0
Held [] p = ⊥
Held (q ∷ l) p = (q ≡ p) ⊎ Held l p

append-IsOrdered :
    (l : List Price) (now price : ℕ)
    → IsOrdered l
    → All (λ p. p.0 ≤ now) l
    → IsOrdered (l ++ (now, price) ∷ []) × All (λ p. p.0 ≤ now) (l ++ (now, price) ∷ [])
append-IsOrdered [] now price o h = ((tt, tt), (omega arith, tt))
append-IsOrdered (p ∷ l) now price o h =
    let (a, b) = append-IsOrdered l now price o.1 h.1 in
    ((append-All l p now price o.0 h.0, a), (h.0, b))
  where
    append-All :
        (l : List Price) (p : Price) (now price : ℕ)
        → All (λ q. p.0 ≤ q.0) l
        → p.0 ≤ now
        → All (λ q. p.0 ≤ q.0) (l ++ (now, price) ∷ [])
    append-All [] p now price a h = (h, tt)
    append-All (q ∷ l) p now price a h = (a.0, append-All l p now price a.1 h)

drop_before-IsOrdered : (now : ℕ) (l : List Price) → IsOrdered l → IsOrdered (drop_before now l)
drop_before-IsOrdered now [] o = tt
drop_before-IsOrdered now ((ts, price) ∷ l) o =
    elim (Bool-cases (ltb (ts + max_return_window_ns) now)) [
      | inl old ↦ simp old (drop_before-IsOrdered now l o.1)
      | inr young ↦ simp young o
    ]

young-InWindow :
    (now ts : ℕ) (l : List Price)
    → now ≤ ts + max_return_window_ns
    → All (λ q. ts ≤ q.0) l
    → All (λ q. q.0 ≤ now) l
    → All (InWindow now) l
young-InWindow now ts [] y a h = tt
young-InWindow now ts (q ∷ l) y a h =
    ((omega (arith, y, a.0), h.0), young-InWindow now ts l y a.1 h.1)

drop_before-InWindow :
    (now : ℕ) (l : List Price)
    → IsOrdered l
    → All (λ p. p.0 ≤ now) l
    → All (InWindow now) (drop_before now l)
drop_before-InWindow now [] o h = tt
drop_before-InWindow now ((ts, price) ∷ l) o h =
    elim (Bool-cases (ltb (ts + max_return_window_ns) now)) [
      | inl old ↦ simp old (drop_before-InWindow now l o.1 h.1)
      | inr young ↦
          let y : now ≤ ts + max_return_window_ns = ground arith in
          simp young ((y, h.0), young-InWindow now ts l y o.0 h.1)
    ]

either_price :
    (b : Bool) (x y : Option ℕ) (p : ℕ)
    → (if b then x else y) ≡ some p
    → ((b ≡ true) × (x ≡ some p)) ⊎ (y ≡ some p)
either_price true x y p e = inl (refl, e)
either_price false x y p e = inr e

-- A price that is found was there before, or is one of the list, as old as is asked for.
price_from-Held :
    (l : List Price) (found : Option ℕ) (back now p : ℕ)
    → price_from found l back now ≡ some p
    → (found ≡ some p) ⊎ ((ts : ℕ) × Held l (ts, p) × (ts + back ≤ now))
price_from-Held [] found back now p e = inl e
price_from-Held ((ts, price) ∷ l) found back now p e =
    elim (either_price (leb (ts + back) now) (price_from (some price) l back now) found p e) [
      | inr before ↦ inl before
      | inl (old, later) ↦ elim (price_from-Held l (some price) back now p later) [
        | inl here ↦ inr (ts, inl (same_price ts price p here), leb→le (ts + back) now old)
        | inr (ts', held, le) ↦ inr (ts', inr held, le)
      ]
    ]
  where
    same_price : (ts price p : ℕ) → some price ≡ some p → ◌≡◌ {A = Price} (ts, price) (ts, p)
    same_price ts price p e = let f : price ≡ p = cc in rw f refl

abbrev pub latest_or : Option ℕ → Option ℕ → Option ℕ
latest_or none other = other
latest_or (some p) other = some p

-- The last price of the list that is as old as is asked for.
abbrev pub latest : List Price → ℕ → ℕ → Option ℕ
latest [] back now = none
latest ((ts, price) ∷ l) back now =
    latest_or (latest l back now) (if leb (ts + back) now then some price else none)

Held-All : (P : Price → Type 0) (l : List Price) (p : Price) → All P l → Held l p → P p
Held-All P [] p a h = absurd h
Held-All P (q ∷ l) p a (inl e) = subst P e a.0
Held-All P (q ∷ l) p a (inr h) = Held-All P l p a.1 h

latest-none :
    (l : List Price) (ts back now : ℕ)
    → All (λ q. ts ≤ q.0) l
    → leb (ts + back) now ≡ false
    → latest l back now ≡ none
latest-none [] ts back now a h = refl
latest-none ((t, p) ∷ l) ts back now a h =
    let young : leb (t + back) now ≡ false = ground (arith, a.0) in
    rw (latest-none l ts back now a.1 h, young) refl

latest_or_assoc :
    (a : Option ℕ) (p : ℕ) (found : Option ℕ)
    → latest_or a (some p) ≡ latest_or (latest_or a (some p)) found
latest_or_assoc none p found = refl
latest_or_assoc (some q) p found = refl

price_from-latest :
    (l : List Price) (found : Option ℕ) (back now : ℕ)
    → IsOrdered l
    → price_from found l back now ≡ latest_or (latest l back now) found
price_from-latest [] found back now o = refl
price_from-latest ((ts, price) ∷ l) found back now o = elim (Bool-cases (leb (ts + back) now)) [
  | inl old ↦ rw old (
      price_from-latest l (some price) back now o.1
      ∙ latest_or_assoc (latest l back now) price found)
  | inr young ↦ rw (young, latest-none l ts back now o.0 young) refl
]

-- On a history in the order of time, the price at or before a time is that of the last entry that is
-- not later, as found by looking at all entries, though the loop stops at the first later one.
pub price_at_or_before-latest :
    (l : List Price) (back now : ℕ)
    → IsOrdered l
    → price_at_or_before l back now ≡ latest l back now
unfolding price_at_or_before
price_at_or_before-latest l back now o =
    price_from-latest l none back now o ∙ none_last (latest l back now)
  where
    none_last : (a : Option ℕ) → latest_or a none ≡ a
    none_last none = refl
    none_last (some p) = refl

append_price-Window :
    (now price : ℕ) (y : SymbolState)
    → IsOrdered y.price_history
    → All (λ p. p.0 ≤ now) y.price_history
    → let h = drop_before now (y.price_history ++ (now, price) ∷ []) in
      IsOrdered h × All (InWindow now) h
append_price-Window now price y o a =
    let (o', a') = append-IsOrdered y.price_history now price o a in
    let all = y.price_history ++ (now, price) ∷ [] in
    (drop_before-IsOrdered now all o', drop_before-InWindow now all o' a')

-- A new price that is not earlier than those of an ordered history leaves the history ordered, with
-- prices of the last 30 seconds only.
pub append_price-InWindow :
    (now price : ℕ) (y : SymbolState)
    → IsOrdered y.price_history
    → All (λ p. p.0 ≤ now) y.price_history
    → let h = (append_price now price y).price_history in IsOrdered h × All (InWindow now) h
unfolding append_price
append_price-InWindow now price y o a = append_price-Window now price y o a

exact :
    (now baseline : ℕ) (h : List Price)
    → All (InWindow now) h
    → (◌≡◌ {A = Option ℕ} none (some baseline))
      ⊎ ((ts : ℕ) × Held h (ts, baseline) × (ts + max_return_window_ns ≤ now))
    → (ts : ℕ) × Held h (ts, baseline) × (ts + max_return_window_ns ≡ now)
exact now baseline h w (inl e) = absurd (none-not-some baseline e)
  where
    none-not-some : (p : ℕ) → ◌≡◌ {A = Option ℕ} none (some p) → ⊥
    none-not-some p e = cc
exact now baseline h w (inr (ts, held, le)) =
    let young = Held-All (InWindow now) h (ts, baseline) w held in
    (ts, held, omega (arith, young.0, le))

-- After a new price that is not earlier than those of an ordered history, the 30 second return has a
-- baseline only if a price of the history is exactly 30 seconds old.
pub append_price-baseline :
    (now price baseline : ℕ) (y : SymbolState)
    → IsOrdered y.price_history
    → All (λ p. p.0 ≤ now) y.price_history
    → price_at_or_before (append_price now price y).price_history max_return_window_ns now
      ≡ some baseline
    → (ts : ℕ) × Held (append_price now price y).price_history (ts, baseline)
      × (ts + max_return_window_ns ≡ now)
unfolding append_price price_at_or_before
append_price-baseline now price baseline y o a e =
    let h = drop_before now (y.price_history ++ (now, price) ∷ []) in
    exact now baseline h (append_price-Window now price y o a).1
      (price_from-Held h none max_return_window_ns now baseline e)

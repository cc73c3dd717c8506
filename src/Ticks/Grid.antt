-- ===== src/Ticks/Grid.antt =====
-- Where a rounded price lies.
use native.Mathlib.Nat.{
  div-add-mod, mod-lt, zero-lt-suc, mul-add, mul-one, mul-div_cancel_left, mul-mod_right,
}
use somethingtrade.Prelude.{
  ℕ, suc, ◌+◌, ◌*◌, ◌/◌, ◌%◌, ◌≤◌, ◌<◌, ◌≡◌, refl, ap, subst, ◌∙◌, inl, inr, false, some,
  Bool-cases, leb, leb→le, ◌==◌, ==_iff, arith,
}
use somethingtrade.Prelude.Int.{pos}
use somethingtrade.Ticks.{
  Side, buy, sell, nearest, ticks_at, rounded_ticks, round_to, round_price_to_tick,
}

-- How far the rounded price is from the price: not above it for a buyer, not below it for a seller, by
-- less than a tick, and at most half a tick away with no side.
abbrev pub IsRounded : Side → ℕ → ℕ → ℕ → Type 0
IsRounded buy tick price rounded = (rounded ≤ price) × (price < rounded + tick)
IsRounded sell tick price rounded = (price ≤ rounded) × (rounded < price + tick)
IsRounded nearest tick price rounded =
    (2 * rounded ≤ 2 * price + tick) × (2 * price ≤ 2 * rounded + tick)

one_more : (tick q : ℕ) → tick * (q + 1) ≡ tick * q + tick
one_more tick q = mul-add tick q 1 ∙ ap (λ (n : ℕ). tick * q + n) (mul-one tick)

parts-IsRounded :
    (side : Side) (tick q r : ℕ)
    → r < tick
    → IsRounded side tick (tick * q + r) (tick * ticks_at side tick q r)
parts-IsRounded buy tick q r h = (omega arith, omega (arith, h))
parts-IsRounded sell tick q r h = elim (Bool-cases (r == 0)) [
  | inl e ↦ let zero_r : r ≡ 0 = (==_iff r 0).0 e in rw e (omega (arith, zero_r), omega (arith, h))
  | inr n ↦
      let some_r : 0 < r = ground arith in
      rw n (omega (arith, h, one_more tick q), omega (arith, some_r, one_more tick q))
]
parts-IsRounded nearest tick q r h = elim (Bool-cases (leb tick (2 * r))) [
  | inl up ↦
      let half = leb→le tick (2 * r) up in
      rw up (omega (arith, h, half, one_more tick q), omega (arith, h, half, one_more tick q))
  | inr down ↦
      let half : 2 * r < tick = ground arith in rw down (omega (arith, half), omega (arith, half))
]

round_to-IsRounded :
    (side : Side) (tick price : ℕ) → 0 < tick → IsRounded side tick price (round_to side price tick)
unfolding round_to
round_to-IsRounded side tick price h =
    let e : tick * (price / tick) + price % tick ≡ price = div-add-mod price tick in
    subst (λ p. IsRounded side tick p (tick * rounded_ticks side price tick)) e
      (parts-IsRounded side tick (price / tick) (price % tick) (mod-lt price h))

-- On the grid there is no remainder.
round_to-fixed : (side : Side) (tick k : ℕ) → 0 < tick → round_to side (tick * k) tick ≡ tick * k
unfolding round_to
round_to-fixed side tick k h =
    let q : tick * k / tick ≡ k = mul-div_cancel_left k h in
    let r : tick * k % tick ≡ 0 = mul-mod_right tick k in rw (q, r) (exact tick k h side)
  where
    exact : (tick k : ℕ) → 0 < tick → (side : Side) → tick * ticks_at side tick k 0 ≡ tick * k
    exact tick k h buy = refl
    exact tick k h sell = refl
    exact tick k h nearest = let below : leb tick 0 ≡ false = ground arith in rw below refl

-- For a tick size above zero, the rounded price is a whole number of ticks; it is not above the price
-- for a buyer, not below it for a seller, and less than a tick from it, and with no side it is at most
-- half a tick from it; and rounding it again, for any side, leaves it as it is.
pub round_price_to_tick_lem :
    (side again : Side) (price n : ℕ)
    → (k : ℕ) × (round_price_to_tick side price (pos (suc n)) ≡ some (suc n * k))
      × IsRounded side (suc n) price (suc n * k)
      × (round_price_to_tick again (suc n * k) (pos (suc n)) ≡ some (suc n * k))
unfolding round_price_to_tick round_to
round_price_to_tick_lem side again price n =
    let tick = suc n in
    let k = rounded_ticks side price tick in
    (
      k,
      refl,
      round_to-IsRounded side tick price (zero-lt-suc n),
      ap some (round_to-fixed again tick k (zero-lt-suc n)),
    )

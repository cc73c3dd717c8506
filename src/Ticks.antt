-- ===== src/Ticks.antt =====
-- bot/app/core/tick_math.py: prices and the tick grid.
--
-- A price, a tick size and a tolerance are whole numbers of quanta, and a price is not negative. The
-- code divides decimals of 28 digits; a quotient here is exact. `ValueError` is `none`.
pub mod Grid
mod Tests
use somethingtrade.Prelude.{
  ℕ, zero, suc, ◌+◌, ◌-◌, ◌*◌, ◌/◌, ◌%◌, Bool, true, false, Option, none, some, ltb, leb, ◌==◌,
  if◌then◌else◌,
}
use somethingtrade.Prelude.Int.{ℤ, pos, negsuc}

pub data Side : Type 0 where
  buy sell nearest : Side

-- `_validate_tick_size`, and what comes after it.
abbrev pub with_tick {ℓ} : {A : Type ℓ} → ℤ → (ℕ → A) → Option A
with_tick (pos zero) f = none
with_tick (pos (suc n)) f = some (f (suc n))
with_tick (negsuc n) f = none

-- `price_to_ticks`, and `diff_to_ticks` for a difference of two prices: a fraction of ticks.
unfoldable pub price_to_ticks : ℕ → ℤ → Option (ℕ × ℕ)
price_to_ticks price tick_size = with_tick tick_size (λ tick. (price, tick))

-- The whole number of ticks, from the quotient and the remainder: rounded down, up, or half up.
abbrev pub ticks_at : Side → ℕ → ℕ → ℕ → ℕ
ticks_at buy tick quotient remainder = quotient
ticks_at sell tick quotient remainder = if remainder == 0 then quotient else quotient + 1
ticks_at nearest tick quotient remainder =
    if leb tick (2 * remainder) then quotient + 1 else quotient

abbrev pub rounded_ticks : Side → ℕ → ℕ → ℕ
rounded_ticks side price tick = ticks_at side tick (price / tick) (price % tick)

-- The price on the grid, for a tick size above zero.
unfoldable pub round_to : Side → ℕ → ℕ → ℕ
round_to side price tick = tick * rounded_ticks side price tick

unfoldable pub round_price_to_tick : Side → ℕ → ℤ → Option ℕ
round_price_to_tick side price tick_size = with_tick tick_size (round_to side price)

-- Of the price that it is to be rounded to.
abbrev is_near : ℕ → ℕ → ℕ → Bool
is_near rounded price tolerance = leb ((rounded - price) + (price - rounded)) tolerance

unfoldable pub is_price_on_tick : ℕ → ℤ → ℕ → Option Bool
unfolding round_to
is_price_on_tick price tick_size tolerance =
    with_tick tick_size (λ tick. is_near (round_to nearest price tick) price tolerance)

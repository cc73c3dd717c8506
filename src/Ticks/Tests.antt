-- ===== src/Ticks/Tests.antt =====
-- Prices on a grid of ten.
use somethingtrade.Prelude.{ℕ, ◌*◌, ◌≡◌, refl, true, some}
use somethingtrade.Prelude.Int.{pos}
use somethingtrade.Ticks.{buy, sell, nearest, round_to, round_price_to_tick, is_price_on_tick}
use somethingtrade.Ticks.Grid.{IsRounded, round_price_to_tick_lem}

round_price_to_tick_lem_example :
    (k : ℕ) × (round_price_to_tick sell 41 (pos 10) ≡ some (10 * k))
    × IsRounded sell 10 41 (10 * k)
    × (round_price_to_tick buy (10 * k) (pos 10) ≡ some (10 * k))
round_price_to_tick_lem_example = round_price_to_tick_lem sell buy 41 9

half_up : round_price_to_tick nearest 45 (pos 10) ≡ some 50
unfolding round_price_to_tick round_to
half_up = refl

on_tick : is_price_on_tick 49 (pos 10) 1 ≡ some true
unfolding is_price_on_tick
on_tick = refl

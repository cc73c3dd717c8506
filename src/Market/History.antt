-- ===== src/Market/History.antt =====
-- The price history of a symbol and what is computed of it: `_append_price`, `_recompute_returns`,
-- `_recompute_volatility_30s` and `_price_at_or_before` of bot/app/state/market_state.py.
use somethingtrade.Prelude.{
  ℕ, ◌+◌, ◌*◌, Option, none, some, List, [], ◌∷◌, ◌++◌, ltb, leb, ◌==◌, if◌then◌else◌,
}
use somethingtrade.Market.Types.{Price, SymbolState, return_windows_sec, max_return_window_ns}

-- The oldest prices that are before the cutoff are dropped.
abbrev pub drop_before : ℕ → List Price → List Price
drop_before now [] = []
drop_before now ((ts, price) ∷ l) =
    let rest = drop_before now l in
    if ltb (ts + max_return_window_ns) now then rest else (ts, price) ∷ l

-- `_price_at_or_before`, after the price that was found so far, for a target some time before now.
abbrev pub price_from : Option ℕ → List Price → ℕ → ℕ → Option ℕ
price_from found [] back now = found
price_from found ((ts, price) ∷ l) back now =
    let rest = price_from (some price) l back now in if leb (ts + back) now then rest else found

unfoldable pub price_at_or_before : List Price → ℕ → ℕ → Option ℕ
price_at_or_before history back now = price_from none history back now

-- The return since a baseline.
abbrev pub return_of : ℕ → Option ℕ → Option (ℕ × ℕ)
return_of price none = none
return_of price (some baseline) = if baseline == 0 then none else some (price, baseline)

unfoldable pub recompute_returns : List ℕ → List Price → ℕ → ℕ → List (ℕ × Option (ℕ × ℕ))
recompute_returns [] history now price = []
recompute_returns (w ∷ ws) history now price =
    (w, return_of price (price_at_or_before history (1_000_000_000 * w) now))
    ∷ recompute_returns ws history now price

-- The returns from each price to the next, where the earlier one is above zero.
abbrev successive_returns : ℕ → List Price → List (ℕ × ℕ)
successive_returns previous [] = []
successive_returns previous ((ts, price) ∷ l) =
    let rest = successive_returns price l in
    if ltb 0 previous then (price, previous) ∷ rest else rest

abbrev two_or_more : List (ℕ × ℕ) → Option (List (ℕ × ℕ))
two_or_more [] = none
two_or_more (r ∷ []) = none
two_or_more (r ∷ r' ∷ l) = some (r ∷ r' ∷ l)

unfoldable pub recompute_volatility_30s : List Price → Option (List (ℕ × ℕ))
recompute_volatility_30s [] = none
recompute_volatility_30s (p ∷ []) = none
recompute_volatility_30s (p ∷ p' ∷ []) = none
recompute_volatility_30s (p ∷ p' ∷ p'' ∷ l) = two_or_more (successive_returns p.1 (p' ∷ p'' ∷ l))

unfoldable pub append_price : ℕ → ℕ → SymbolState → SymbolState
append_price now price y =
    let history = drop_before now (y.price_history ++ (now, price) ∷ []) in
    record y {
      price_history = history;
      rolling_returns = recompute_returns return_windows_sec history now price;
      volatility_30s = recompute_volatility_30s history;
    }

-- ===== src/Market/Tests.antt =====
-- The market state on small inputs: a quote of a market that is then closed, and prices of a symbol.
use somethingtrade.Prelude.{
  ℕ, ◌+◌, ◌≤◌, ◌≡◌, ◌↔◌, refl, true, false, some, none, List, [], ◌∷◌, All, arith,
}
use somethingtrade.Prelude.Texts.{find, member}
use somethingtrade.Market.Types.{
  Stamps, PolymarketQuote, MarketLifecycleEvent, closed, Event, quote, lifecycle, Price,
  SymbolState, MarketState, init, new_symbol, max_return_window_ns,
}
use somethingtrade.Market.History.{price_at_or_before, append_price}
use somethingtrade.Market.Apply.{Now, is_stale_quote, checked_quote, stamped_quote, apply}
use somethingtrade.Market.Window.{
  IsOrdered, Held, latest, price_at_or_before-latest, append_price-baseline,
}
use somethingtrade.Market.Complete.{IsFresh, apply-book_complete_iff}
use somethingtrade.Market.Quotes.{is_offered, IsNotOffered, run, run-closed}

abbrev stamps : Stamps
stamps = record {
  ts_ns = 1;
  exchange_event_ts = none;
  local_received_ts = some 1;
  parse_done_ts = none;
  state_updated_ts = none;
  recv_monotonic_ns = some 1;
  parse_done_monotonic_ns = none;
  state_updated_monotonic_ns = none;
  latency_ns = none;
}

abbrev complete_quote : PolymarketQuote
complete_quote = record {
  stamps = stamps;
  market_id = "m";
  token_id = "t";
  side_label = "UP";
  best_bid = some 400;
  best_ask = some 420;
  event_ts = none;
  received_ts = some 1;
  book_complete = true;
  book_stale = false;
  validation_error = none;
}

abbrev end : MarketLifecycleEvent
end = record { stamps = stamps; market_id = "m"; token_id = none; lifecycle_type = closed }

abbrev begun : MarketState
begun = (apply (2, 2) (quote complete_quote) (init 100)).0

apply-book_complete_iff_example :
    let (s', e') = apply (3, 3) (quote complete_quote) begun in
    (q' : PolymarketQuote) × (e' ≡ quote q')
    × (find s'.polymarket_quotes "t" ≡ some q')
    × ((q'.book_complete ≡ true) ↔ (
        (complete_quote.book_complete ≡ true)
        × (member begun.market_invalid "m" ≡ false)
        × IsFresh begun.max_polymarket_quote_age_ns (3, 3) complete_quote))
apply-book_complete_iff_example = apply-book_complete_iff begun (3, 3) complete_quote

-- The quote was received at 1, and the limit is 100: it is complete at 101 and stale at 102.
limit_ages :
    ((stamped_quote begun (101, 101) complete_quote).book_complete ≡ true)
    × ((stamped_quote begun (102, 102) complete_quote).book_complete ≡ false)
unfolding init apply checked_quote is_stale_quote
limit_ages = (refl, refl)

abbrev later : List (Now × Event)
later = ((4, 4), quote complete_quote) ∷ []

run-closed_example :
    let (s', out) = run later (apply (3, 3) (lifecycle end) begun).0 in
    All (λ t. is_offered "m" t.1 ≡ false) s'.polymarket_quotes × All (IsNotOffered "m") out
run-closed_example = run-closed end (3, 3) later begun refl

-- Two prices, 29 and 30 seconds before the new one.
abbrev history : List Price
history = (1_000_000_000, 50) ∷ (2_000_000_000, 52) ∷ []

abbrev symbol : SymbolState
symbol = record (new_symbol "BTCUSDT") { price_history = history }

history-IsOrdered : IsOrdered history
history-IsOrdered = ((omega arith, tt), (tt, tt))

history_past : All (λ p. p.0 ≤ 31_000_000_000) history
history_past = (omega arith, (omega arith, tt))

price_at_or_before-latest_example :
    price_at_or_before history 1_000_000_000 3_000_000_000
    ≡ latest history 1_000_000_000 3_000_000_000
price_at_or_before-latest_example =
    price_at_or_before-latest history 1_000_000_000 3_000_000_000 history-IsOrdered

baseline_found :
    price_at_or_before
      (append_price 31_000_000_000 55 symbol).price_history
      max_return_window_ns
      31_000_000_000
    ≡ some 50
unfolding append_price price_at_or_before
baseline_found = refl

append_price-baseline_example :
    (ts : ℕ) × Held (append_price 31_000_000_000 55 symbol).price_history (ts, 50)
    × (ts + max_return_window_ns ≡ 31_000_000_000)
append_price-baseline_example =
    append_price-baseline 31_000_000_000 55 50 symbol history-IsOrdered history_past baseline_found

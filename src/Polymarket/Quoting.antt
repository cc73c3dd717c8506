-- ===== src/Polymarket/Quoting.antt =====
-- What is shown of a token's book: `_touch`, `_is_stale`, `_quality_rates_for_token`,
-- `_quality_rates_for_market`, `_quality_rates` and `_quote` of
-- bot/app/marketdata/polymarket_orderbook.py.
use somethingtrade.Prelude.{
  ℕ, ◌+◌, ◌-◌, String, str_eq, Bool, true, false, not, ◌&&◌, ◌||◌, Option, none, some, List, [],
  ◌∷◌, ltb, ◌==◌, if◌then◌else◌,
}
use somethingtrade.Prelude.Int.{sub_ℕ}
use somethingtrade.Prelude.Texts.{Texts, find}
use somethingtrade.Polymarket.Types.{
  UpdateType, BookError, reported_best_bid_mismatch, reported_best_ask_mismatch, TokenBook,
  TokenBookReadiness, PolymarketQuote, PolymarketLocalOrderBook, Received,
}
use somethingtrade.Polymarket.Levels.{best_bid, best_ask, structural_validation_error, is_uncrossed}
use somethingtrade.Polymarket.Reported.{price_of, size_of}

abbrev pub Rates : Type 0
Rates = Option (ℕ × ℕ) × Option (ℕ × ℕ)

unfoldable pub touch : Received → TokenBook → TokenBook
touch r b = record b {
  last_event_ts = r.event_ts;
  last_received_ts = some r.received_ts;
  last_hash = r.sequence;
  last_book_hash = r.sequence;
  update_count = b.update_count + 1;
}

-- A limit in nanoseconds; a clock that runs backwards makes nothing stale.
abbrev pub is_stale : ℕ → Option ℕ → ℕ → Bool
is_stale stale_after_ns none now_ts = true
is_stale stale_after_ns (some last) now_ts = ltb (last + stale_after_ns) now_ts

-- `reason.startswith("reported_best_")`
abbrev pub is_mismatch : BookError → Bool
is_mismatch reported_best_bid_mismatch = true
is_mismatch reported_best_ask_mismatch = true
is_mismatch error = false

abbrev pub mismatch_count : List (BookError × ℕ) → ℕ
mismatch_count [] = 0
mismatch_count ((reason, count) ∷ counts) =
    (if is_mismatch reason then count else 0) + mismatch_count counts

-- Mismatches and complete quotes, each as a share of all quotes.
abbrev pub rates_of : ℕ → ℕ → ℕ → Rates
rates_of mismatches complete total =
    if total == 0 then (none, none) else (some (mismatches, total), some (complete, total))

unfoldable pub quality_rates : TokenBookReadiness → Rates
quality_rates r =
    rates_of (mismatch_count r.validation_error_count_by_reason) r.book_complete_true_count
      (r.book_complete_true_count + r.book_complete_false_count)

abbrev pub rates_found : Option TokenBookReadiness → Rates
rates_found none = (none, none)
rates_found (some r) = quality_rates r

unfoldable pub quality_rates_for_token : PolymarketLocalOrderBook → String → Rates
quality_rates_for_token s token_id = rates_found (find s.readiness token_id)

-- A sum over the tokens of a market.
abbrev pub sum_market : (TokenBookReadiness → ℕ) → Texts TokenBookReadiness → String → ℕ
sum_market f [] market_id = 0
sum_market f ((token, r) ∷ l) market_id =
    (if str_eq r.market_id market_id then f r else 0) + sum_market f l market_id

unfoldable pub quality_rates_for_market : PolymarketLocalOrderBook → String → Rates
quality_rates_for_market s market_id =
    rates_of
      (sum_market (λ r. mismatch_count r.validation_error_count_by_reason) s.readiness market_id)
      (sum_market (λ r. r.book_complete_true_count) s.readiness market_id)
      (sum_market (λ r. r.book_complete_true_count + r.book_complete_false_count) s.readiness
        market_id)

-- The price that is shown, and the size that goes with it.
abbrev pub shown_price : Option ℕ → Option (ℕ × ℕ) → Option ℕ
shown_price none best = price_of best
shown_price (some p) best = some p

abbrev pub shown_size : Option ℕ → Option (ℕ × ℕ) → Option ℕ
shown_size none best = size_of best
shown_size (some p) best = none

-- The sum of the two prices, which is the mid price in half quanta.
abbrev pub mid_of : Option ℕ → Option ℕ → Option ℕ
mid_of none ask = none
mid_of (some bid) none = none
mid_of (some bid) (some ask) = some (bid + ask)

-- `max(0.0, best_ask - best_bid)`
abbrev pub spread_of : Option ℕ → Option ℕ → Option ℕ
spread_of none ask = none
spread_of (some bid) none = none
spread_of (some bid) (some ask) = some (ask - bid)

-- `a or b` on two errors, none of which is the empty text.
abbrev pub or_error : Option BookError → Option BookError → Option BookError
or_error none other = other
or_error (some e) other = some e

unfoldable pub structurally_complete : TokenBook → Bool
structurally_complete b =
    b.has_snapshot && (not b.invalid && is_uncrossed (best_bid b.bids) (best_ask b.asks))

unfoldable pub is_incomplete : TokenBook → Bool
is_incomplete b = b.incomplete || (b.invalid || not (structurally_complete b))

unfoldable pub quote :
    PolymarketLocalOrderBook → Received → UpdateType → TokenBook → PolymarketQuote
quote s r update_type b =
    let bid = shown_price b.best_bid_override (best_bid b.bids) in
    let ask = shown_price b.best_ask_override (best_ask b.asks) in
    record {
      market_id = b.metadata.market_id;
      condition_id = b.metadata.condition_id;
      token_id = b.token_id;
      side_label = b.metadata.side_label;
      best_bid = bid;
      best_bid_size = shown_size b.best_bid_override (best_bid b.bids);
      best_ask = ask;
      best_ask_size = shown_size b.best_ask_override (best_ask b.asks);
      mid_price = mid_of bid ask;
      spread = spread_of bid ask;
      event_ts = r.event_ts;
      received_ts = r.received_ts;
      parse_done_ts = r.parse_done_ts;
      recv_monotonic_ns = r.recv_monotonic_ns;
      parse_done_monotonic_ns = r.parse_done_monotonic_ns;
      latency_ns = sub_ℕ r.parse_done_monotonic_ns r.recv_monotonic_ns;
      sequence = b.update_count;
      book_complete = not (is_incomplete b);
      book_stale = is_stale s.settings.stale_after_ns b.last_received_ts r.received_ts;
      book_hash = b.last_hash;
      validation_error =
          or_error b.validation_error
            (structural_validation_error b.has_snapshot (best_bid b.bids) (best_ask b.asks));
      book_update_type = update_type;
      book_has_snapshot = b.has_snapshot;
      book_structurally_complete = structurally_complete b;
      reported_best_validation_ok = b.reported_best_validation_ok;
      validation_mode = s.settings.best_validation_mode;
      validation_tolerance_ticks = s.settings.best_validation_tolerance_ticks;
      market_mismatch_rate = (quality_rates_for_market s b.metadata.market_id).0;
      token_mismatch_rate = (quality_rates_for_token s b.token_id).0;
      market_quote_complete_rate = (quality_rates_for_market s b.metadata.market_id).1;
      token_quote_complete_rate = (quality_rates_for_token s b.token_id).1;
    }

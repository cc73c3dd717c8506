-- ===== src/Market/Apply.antt =====
-- `apply` of bot/app/state/market_state.py, with what it calls.
use somethingtrade.Prelude.{
  ℕ, ◌+◌, ◌-◌, String, str_eq, Bool, true, false, Option, none, some, [], ◌∷◌, ◌++◌, ltb, ◌==◌,
  if◌then◌else◌, or_text,
}
use somethingtrade.Prelude.Int.{ℤ, sub_ℕ}
use somethingtrade.Prelude.Texts.{Texts, find, set, member, add}
use somethingtrade.Market.Types.{
  Stamps, MarketTick, OrderBookTop, DepthUpdate, PolymarketQuote, MarketLifecycleType,
  tick_size_change, market_resolved, new_market, closed, expired, MarketLifecycleEvent, Event, tick,
  top, depth, quote, lifecycle, SymbolState, MarketState, new_symbol,
}
use somethingtrade.Market.History.{append_price}

-- `a or b` on two optional numbers: zero is passed over.
abbrev pub or_ts : Option ℕ → Option ℕ → Option ℕ
or_ts none other = other
or_ts (some t) other = if t == 0 then other else some t

abbrev pub is_older : ℕ → Option ℕ → ℕ → Bool
is_older max_age none now = false
is_older max_age (some t) now = ltb (t + max_age) now

-- The age by the monotonic clock where the quote has such a time, by its wall clock times else.
abbrev pub stale_by : ℕ → Option ℕ → Option ℕ → ℕ → ℕ → Bool
stale_by max_age (some recv) reference now_ts now_monotonic_ns =
    ltb (recv + max_age) now_monotonic_ns
stale_by max_age none reference now_ts now_monotonic_ns = is_older max_age reference now_ts

-- `is_stale_quote`, as `apply` calls it, with both times.
unfoldable pub is_stale_quote : ℕ → PolymarketQuote → ℕ → ℕ → Bool
is_stale_quote max_age q now_ts now_monotonic_ns =
    stale_by max_age q.stamps.recv_monotonic_ns
      (or_ts q.event_ts (or_ts q.received_ts q.stamps.exchange_event_ts)) now_ts now_monotonic_ns

abbrev pub invalidated_quote : PolymarketQuote → PolymarketQuote
invalidated_quote q = record q {
  book_complete = false;
  validation_error = some (or_text q.validation_error "market_invalidated");
}

abbrev pub stale_quote : PolymarketQuote → PolymarketQuote
stale_quote q = record q {
  book_complete = false;
  book_stale = true;
  validation_error = some (or_text q.validation_error "quote_stale");
}

abbrev latency_of : Option ℕ → ℕ → Option ℤ
latency_of none now = none
latency_of (some recv) now = some (sub_ℕ now recv)

unfoldable pub with_state_latency : ℕ → ℕ → Stamps → Stamps
with_state_latency now_ts now_monotonic_ns t = record t {
  state_updated_ts = some now_ts;
  state_updated_monotonic_ns = some now_monotonic_ns;
  latency_ns = latency_of t.recv_monotonic_ns now_monotonic_ns;
}

abbrev pub check_valid : Bool → PolymarketQuote → PolymarketQuote
check_valid true q = invalidated_quote q
check_valid false q = q

abbrev pub check_fresh : Bool → PolymarketQuote → PolymarketQuote
check_fresh true q = stale_quote q
check_fresh false q = q

-- A quote of an invalid market, or one that is too old, is not complete.
unfoldable pub checked_quote : MarketState → ℕ → ℕ → PolymarketQuote → PolymarketQuote
checked_quote s now_ts now_monotonic_ns q =
    let q1 = check_valid (member s.market_invalid q.market_id) q in
    check_fresh (is_stale_quote s.max_polymarket_quote_age_ns q1 now_ts now_monotonic_ns) q1

unfoldable pub update_common_timestamps : Stamps → ℕ → SymbolState → SymbolState
update_common_timestamps t now_ts y = record y {
  last_event_timestamp = or_ts t.exchange_event_ts (some t.ts_ns);
  local_receive_timestamp = t.local_received_ts;
  parse_done_timestamp = t.parse_done_ts;
  state_updated_timestamp = some now_ts;
  recv_monotonic_ns = t.recv_monotonic_ns;
  parse_done_monotonic_ns = t.parse_done_monotonic_ns;
  state_updated_monotonic_ns = t.state_updated_monotonic_ns;
  latency_ns = t.latency_ns;
}

abbrev or_zero : Option ℕ → ℕ
or_zero none = 0
or_zero (some t) = t

-- `_event_timestamp`
unfoldable pub event_timestamp : Stamps → ℕ
event_timestamp t = or_zero (or_ts t.exchange_event_ts (or_ts t.local_received_ts (some t.ts_ns)))

abbrev or_new_symbol : Option SymbolState → String → SymbolState
or_new_symbol none symbol = new_symbol symbol
or_new_symbol (some y) symbol = y

unfoldable pub symbol_state : MarketState → String → SymbolState
symbol_state s symbol = or_new_symbol (find s.symbols symbol) symbol

abbrev pub invalidate_quotes : String → Texts PolymarketQuote → Texts PolymarketQuote
invalidate_quotes market_id [] = []
invalidate_quotes market_id ((token, q) ∷ l) =
    (token, if str_eq q.market_id market_id then invalidated_quote q else q)
    ∷ invalidate_quotes market_id l

abbrev pub ends_market : MarketLifecycleType → Bool
ends_market market_resolved = true
ends_market closed = true
ends_market expired = true
ends_market tick_size_change = false
ends_market new_market = false

unfoldable pub apply_tick : ℕ → MarketTick → MarketState → MarketState
apply_tick now_ts e s =
    let y = symbol_state s e.symbol in
    let y1 =
      append_price (event_timestamp e.stamps) e.price (record y { latest_price = some e.price }) in
    record s {
      ticks = set s.ticks e.symbol e;
      symbols = set s.symbols e.symbol (update_common_timestamps e.stamps now_ts y1);
    }

unfoldable pub apply_top : ℕ → OrderBookTop → MarketState → MarketState
apply_top now_ts e s =
    let y = record (symbol_state s e.symbol) {
      best_bid = some e.bid_price;
      best_bid_size = some e.bid_size;
      best_ask = some e.ask_price;
      best_ask_size = some e.ask_size;
      bid_ask_spread = some (e.ask_price - e.bid_price);
    } in
    record s {
      book_tops = set s.book_tops e.symbol e;
      symbols = set s.symbols e.symbol (update_common_timestamps e.stamps now_ts y);
    }

unfoldable pub apply_depth : ℕ → DepthUpdate → MarketState → MarketState
apply_depth now_ts e s =
    let y = record (symbol_state s e.symbol) { last_depth_update_id = some e.final_update_id } in
    record s {
      depth_updates = set s.depth_updates e.symbol e;
      symbols = set s.symbols e.symbol (update_common_timestamps e.stamps now_ts y);
    }

abbrev pub end_market : Bool → String → MarketState → MarketState
end_market false market_id s = s
end_market true market_id s = record s {
  market_invalid = add market_id s.market_invalid;
  polymarket_quotes = invalidate_quotes market_id s.polymarket_quotes;
}

unfoldable pub apply_lifecycle : MarketLifecycleEvent → MarketState → MarketState
apply_lifecycle e s = end_market (ends_market e.lifecycle_type) e.market_id (record s {
  market_lifecycle_events = s.market_lifecycle_events ++ e ∷ [];
  lifecycle_events_by_market = set s.lifecycle_events_by_market e.market_id e;
})

-- The two clocks that `apply` reads.
abbrev pub Now : Type 0
Now = ℕ × ℕ

abbrev pub stamped_quote : MarketState → Now → PolymarketQuote → PolymarketQuote
stamped_quote s now q =
    let q' = checked_quote s now.0 now.1 q in
    record q' { stamps = with_state_latency now.0 now.1 q'.stamps }

-- `apply`: the new state, and the event as it is returned.
unfoldable pub apply : Now → Event → MarketState → MarketState × Event
apply now (tick e) s =
    let e' = record e { stamps = with_state_latency now.0 now.1 e.stamps } in
    (apply_tick now.0 e' s, tick e')
apply now (top e) s =
    let e' = record e { stamps = with_state_latency now.0 now.1 e.stamps } in
    (apply_top now.0 e' s, top e')
apply now (depth e) s =
    let e' = record e { stamps = with_state_latency now.0 now.1 e.stamps } in
    (apply_depth now.0 e' s, depth e')
apply now (quote q) s =
    let q' = stamped_quote s now q in
    (record s { polymarket_quotes = set s.polymarket_quotes q'.token_id q' }, quote q')
apply now (lifecycle e) s =
    let e' = record e { stamps = with_state_latency now.0 now.1 e.stamps } in
    (apply_lifecycle e' s, lifecycle e')

-- ===== src/Market/Types.antt =====
-- The events of bot/app/core/events.py, with the fields that bot/app/state/market_state.py reads or
-- sets, and the state that the bot keeps of its symbols and quotes in memory.
--
-- Prices are whole numbers of quanta, ages and latencies nanoseconds. A return is kept as the pair of
-- the price and its baseline, and the volatility as the returns that it is the deviation of.
use somethingtrade.Prelude.{ℕ, String, Bool, Option, none, List, [], ◌∷◌}
use somethingtrade.Prelude.Int.{ℤ}
use somethingtrade.Prelude.Texts.{Texts}

-- `RealtimeMarketEvent`, with the fields that the state reads or sets.
pub record Stamps : Type 0 where
  pub ts_ns : ℕ
  pub exchange_event_ts : Option ℕ
  pub local_received_ts : Option ℕ
  pub parse_done_ts : Option ℕ
  pub state_updated_ts : Option ℕ
  pub recv_monotonic_ns : Option ℕ
  pub parse_done_monotonic_ns : Option ℕ
  pub state_updated_monotonic_ns : Option ℕ
  pub latency_ns : Option ℤ

pub record MarketTick : Type 0 where
  pub stamps : Stamps
  pub symbol : String
  pub price : ℕ
  pub size : ℕ

pub record OrderBookTop : Type 0 where
  pub stamps : Stamps
  pub symbol : String
  pub bid_price : ℕ
  pub bid_size : ℕ
  pub ask_price : ℕ
  pub ask_size : ℕ

pub record DepthUpdate : Type 0 where
  pub stamps : Stamps
  pub symbol : String
  pub first_update_id : ℕ
  pub final_update_id : ℕ

pub record PolymarketQuote : Type 0 where
  pub stamps : Stamps
  pub market_id : String
  pub token_id : String
  pub side_label : String
  pub best_bid : Option ℕ
  pub best_ask : Option ℕ
  pub event_ts : Option ℕ
  pub received_ts : Option ℕ
  pub book_complete : Bool
  pub book_stale : Bool
  pub validation_error : Option String

pub data MarketLifecycleType : Type 0 where
  tick_size_change market_resolved new_market closed expired : MarketLifecycleType

pub record MarketLifecycleEvent : Type 0 where
  pub stamps : Stamps
  pub market_id : String
  pub token_id : Option String
  pub lifecycle_type : MarketLifecycleType

pub data Event : Type 0 where
  tick : MarketTick → Event
  top : OrderBookTop → Event
  depth : DepthUpdate → Event
  quote : PolymarketQuote → Event
  lifecycle : MarketLifecycleEvent → Event

-- A price at a time.
abbrev pub Price : Type 0
Price = ℕ × ℕ

pub record SymbolState : Type 0 where
  pub symbol : String
  pub latest_price : Option ℕ
  pub best_bid : Option ℕ
  pub best_bid_size : Option ℕ
  pub best_ask : Option ℕ
  pub best_ask_size : Option ℕ
  pub rolling_returns : List (ℕ × Option (ℕ × ℕ))
  pub volatility_30s : Option (List (ℕ × ℕ))
  pub bid_ask_spread : Option ℕ
  pub last_event_timestamp : Option ℕ
  pub local_receive_timestamp : Option ℕ
  pub parse_done_timestamp : Option ℕ
  pub state_updated_timestamp : Option ℕ
  pub recv_monotonic_ns : Option ℕ
  pub parse_done_monotonic_ns : Option ℕ
  pub state_updated_monotonic_ns : Option ℕ
  pub latency_ns : Option ℤ
  pub last_depth_update_id : Option ℕ
  pub price_history : List Price

pub record MarketState : Type 0 where
  pub ticks : Texts MarketTick
  pub book_tops : Texts OrderBookTop
  pub depth_updates : Texts DepthUpdate
  pub polymarket_quotes : Texts PolymarketQuote
  pub market_lifecycle_events : List MarketLifecycleEvent
  pub lifecycle_events_by_market : Texts MarketLifecycleEvent
  pub market_invalid : List String
  pub symbols : Texts SymbolState
  pub max_polymarket_quote_age_ns : ℕ

unfoldable pub init : ℕ → MarketState
init max_age = record {
  ticks = [];
  book_tops = [];
  depth_updates = [];
  polymarket_quotes = [];
  market_lifecycle_events = [];
  lifecycle_events_by_market = [];
  market_invalid = [];
  symbols = [];
  max_polymarket_quote_age_ns = max_age;
}

-- `RETURN_WINDOWS_SEC`, and its maximum in nanoseconds.
abbrev pub return_windows_sec : List ℕ
return_windows_sec = 1 ∷ 5 ∷ 15 ∷ 30 ∷ []

abbrev pub max_return_window_ns : ℕ
max_return_window_ns = 30_000_000_000

abbrev no_returns : List ℕ → List (ℕ × Option (ℕ × ℕ))
no_returns [] = []
no_returns (w ∷ ws) = (w, none) ∷ no_returns ws

abbrev pub new_symbol : String → SymbolState
new_symbol symbol = record {
  symbol = symbol;
  latest_price = none;
  best_bid = none;
  best_bid_size = none;
  best_ask = none;
  best_ask_size = none;
  rolling_returns = no_returns return_windows_sec;
  volatility_30s = none;
  bid_ask_spread = none;
  last_event_timestamp = none;
  local_receive_timestamp = none;
  parse_done_timestamp = none;
  state_updated_timestamp = none;
  recv_monotonic_ns = none;
  parse_done_monotonic_ns = none;
  state_updated_monotonic_ns = none;
  latency_ns = none;
  last_depth_update_id = none;
  price_history = [];
}

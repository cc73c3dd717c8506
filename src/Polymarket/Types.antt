-- ===== src/Polymarket/Types.antt =====
-- The data of bot/app/marketdata/polymarket_orderbook.py: the book of a token, what is known of its
-- readiness, the quote, and the local order book.
--
-- Prices, sizes and ticks are whole numbers of quanta, finer than the tolerance 1e-12 of the code is
-- not, so that two prices are equal where the code takes them for equal. A price is not negative; a
-- size may be. A rate is a fraction, its numerator and its denominator. The mid price counts half
-- quanta, and a latency is in nanoseconds.
use somethingtrade.Prelude.{ℕ, String, Bool, Option, List}
use somethingtrade.Prelude.Int.{ℤ}
use somethingtrade.Prelude.Dict.{Dict}
use somethingtrade.Prelude.Texts.{Texts}

pub data BestValidationMode : Type 0 where
  strict tolerant diagnostic : BestValidationMode

-- `book_update_type`
pub data UpdateType : Type 0 where
  book price_change best_bid_ask : UpdateType

-- The texts of validation errors.
pub data BookError : Type 0 where
  reported_best_bid_mismatch reported_best_ask_mismatch : BookError
  best_bid_size_unknown best_ask_size_unknown missing_snapshot : BookError
  price_change_before_snapshot best_bid_ask_before_snapshot : BookError
  book_structurally_incomplete crossed_book empty_book market_invalidated : BookError
  unsupported_price_change_side : String → BookError

pub record TokenBookMetadata : Type 0 where
  pub condition_id : Option String
  pub market_id : String
  pub side_label : String
  pub market_slug : Option String
  pub base_asset : Option String
  pub duration_minutes : Option ℕ
  pub token_outcome : Option String
  pub tick_size : ℕ

-- `_TokenBook`
pub record TokenBook : Type 0 where
  pub token_id : String
  pub metadata : TokenBookMetadata
  pub bids : Dict ℕ
  pub asks : Dict ℕ
  pub last_hash : Option String
  pub last_event_ts : Option ℕ
  pub last_received_ts : Option ℕ
  pub update_count : ℕ
  pub has_snapshot : Bool
  pub incomplete : Bool
  pub invalid : Bool
  pub validation_error : Option BookError
  pub reported_best_validation_ok : Bool
  pub best_bid_override : Option ℕ
  pub best_ask_override : Option ℕ
  pub last_snapshot_hash : Option String
  pub last_book_hash : Option String

-- A dictionary of counts by update type; a type that is missing counts zero.
pub record ByUpdateType : Type 0 where
  pub books : ℕ
  pub price_changes : ℕ
  pub best_bid_asks : ℕ

-- `_TokenBookReadiness`
pub record TokenBookReadiness : Type 0 where
  pub token_id : String
  pub market_id : String
  pub first_ws_message_ts_ns : Option ℕ
  pub first_book_snapshot_ts_ns : Option ℕ
  pub first_complete_quote_ts_ns : Option ℕ
  pub book_complete_true_count : ℕ
  pub book_complete_false_count : ℕ
  pub validation_error_count_by_reason : List (BookError × ℕ)
  pub validation_error_count_by_update_type : ByUpdateType
  pub quote_stale_count : ℕ
  pub price_change_before_snapshot_count : ℕ
  pub best_bid_ask_before_snapshot_count : ℕ
  pub snapshot_count : ℕ
  pub delta_count : ℕ
  pub reconnect_count : ℕ
  pub last_validation_error : Option BookError

-- `PolymarketQuote`, with the fields that `_quote` gives.
pub record PolymarketQuote : Type 0 where
  pub market_id : String
  pub condition_id : Option String
  pub token_id : String
  pub side_label : String
  pub best_bid : Option ℕ
  pub best_bid_size : Option ℕ
  pub best_ask : Option ℕ
  pub best_ask_size : Option ℕ
  pub mid_price : Option ℕ
  pub spread : Option ℕ
  pub event_ts : Option ℕ
  pub received_ts : ℕ
  pub parse_done_ts : ℕ
  pub recv_monotonic_ns : ℕ
  pub parse_done_monotonic_ns : ℕ
  pub latency_ns : ℤ
  pub sequence : ℕ
  pub book_complete : Bool
  pub book_stale : Bool
  pub book_hash : Option String
  pub validation_error : Option BookError
  pub book_update_type : UpdateType
  pub book_has_snapshot : Bool
  pub book_structurally_complete : Bool
  pub reported_best_validation_ok : Bool
  pub validation_mode : BestValidationMode
  pub validation_tolerance_ticks : ℕ
  pub market_mismatch_rate : Option (ℕ × ℕ)
  pub token_mismatch_rate : Option (ℕ × ℕ)
  pub market_quote_complete_rate : Option (ℕ × ℕ)
  pub token_quote_complete_rate : Option (ℕ × ℕ)

-- The arguments of the constructor that the methods read, in nanoseconds where they are times, and
-- the tick size of a token without metadata.
pub record Settings : Type 0 where
  pub stale_after_ns : ℕ
  pub best_validation_mode : BestValidationMode
  pub best_validation_tolerance_ticks : ℕ
  pub mismatch_sample_path : Option String
  pub mismatch_sample_per_token_per_min : ℕ
  pub default_tick_size : ℕ

-- A sample for the mismatch file, with what decides whether it is written, and why.
pub record MismatchSample : Type 0 where
  pub token_id : String
  pub minute : ℕ
  pub update_type : UpdateType
  pub error_type : Option BookError

-- What the books share: the mismatches seen, each in ticks as a fraction, and the samples.
pub record Mismatches : Type 0 where
  pub tick_diffs : List (ℕ × ℕ)
  pub by_update_type : ByUpdateType
  pub sample_counts : List (String × ℕ × ℕ)
  pub samples : List MismatchSample

-- `PolymarketLocalOrderBook`
pub record PolymarketLocalOrderBook : Type 0 where
  pub settings : Settings
  pub token_metadata : Texts TokenBookMetadata
  pub books : Texts TokenBook
  pub readiness : Texts TokenBookReadiness
  pub market_invalid : List String
  pub mismatches : Mismatches

-- The times and the hash that come with a message.
pub record Received : Type 0 where
  pub received_ts : ℕ
  pub parse_done_ts : ℕ
  pub recv_monotonic_ns : ℕ
  pub parse_done_monotonic_ns : ℕ
  pub event_ts : Option ℕ
  pub sequence : Option String

-- A `book` message. A row that is no mapping is `none`; `bids` is `none` where it is no list.
pub record BookMessage : Type 0 where
  pub asset_id : String
  pub market : String
  pub bids : Option (List (Option (ℕ × ℤ)))
  pub asks : Option (List (Option (ℕ × ℤ)))

-- A row of a `price_change` message, with its side in upper case.
pub record PriceChange : Type 0 where
  pub asset_id : String
  pub market : String
  pub side : String
  pub price : ℕ
  pub size : ℤ
  pub best_bid : Option ℕ
  pub best_ask : Option ℕ

pub record BestBidAsk : Type 0 where
  pub asset_id : String
  pub market : String
  pub best_bid : Option ℕ
  pub best_ask : Option ℕ

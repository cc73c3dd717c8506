-- ===== src/Orderbook/Types.antt =====
-- The data of bot/app/marketdata/orderbook_state.py: levels, snapshots, results, and the state.
--
-- A finite decimal is a number of quanta, for a quantum that divides every price and size of the
-- run. A parsed level holds natural numbers, since `_parse_price` and `_parse_size` hand on no
-- negative and no infinite value. Times are nanoseconds, and a duration that the code keeps in
-- milliseconds is kept in nanoseconds. The texts for errors, statuses and reasons are enumerations.
use somethingtrade.Prelude.{ℕ, String, Bool, Option, List}
use somethingtrade.Prelude.Int.{ℤ}
use somethingtrade.Prelude.Dict.{Dict}

-- The error names, in alphabetical order.
pub data Reason : Type 0 where
  best_ask_missing best_bid_missing book_empty crossed_book duplicate_update : Reason
  invalid_price_level invalid_size_level negative_price negative_size : Reason
  non_finite_price non_finite_size one_side_missing previous_final_update_id_mismatch : Reason
  queue_lag_exceeded reported_best_ask_mismatch reported_best_bid_mismatch : Reason
  sample_before_book_ready sequence_gap_or_reset snapshot_inconsistent stale_book : Reason

-- `OrderbookApplyResult.status`
pub data Status : Type 0 where
  stale_snapshot_generation stale_snapshot_before_gap_boundary snapshot_invalid_levels : Status
  snapshot_loaded delta_before_snapshot duplicate_update : Status
  previous_final_update_id_mismatch sequence_bridge_failed sequence_gap_or_reset : Status
  invalid_delta_levels delta_applied : Status

-- `OrderbookState.last_not_ready_reason`, with the reasons that the callers pass.
pub data NotReadyReason : Type 0 where
  initial_snapshot_missing snapshot_invalid_levels waiting_for_first_delta_bridge : NotReadyReason
  previous_final_update_id_mismatch sequence_bridge_failed sequence_gap_or_reset : NotReadyReason
  invalid_delta_fail_closed quality_gate_failed symbol_removed : NotReadyReason
  reconnect resubscribe feed_receive_stale bridge_missing_after_snapshot : NotReadyReason

-- `Decimal`
pub data Decimal : Type 0 where
  finite : ℤ → Decimal
  infinite nan : Decimal

-- A raw price or size, by what `Decimal(str(value))` makes of it: a decimal, or an error.
pub data Value : Type 0 where
  number : Decimal → Value
  unreadable : Value

-- A raw level: an object with `price` and `size`, a mapping, a tuple or list, or something else.
pub data Row : Type 0 where
  object : Value → Value → Row
  mapping : Option Value → Option Value → Row
  sequence : List Value → Row
  other : Row

pub record ParsedLevel : Type 0 where
  pub price : ℕ
  pub size : ℕ

-- One side of the book: `bids` with `_bid_prices_asc`, or `asks` with `_ask_prices_asc`.
pub record SideBook : Type 0 where
  pub levels : Dict ℕ
  pub prices_asc : List ℕ

-- `mid` counts half quanta, so that `(bid + ask) / 2` is exact.
pub record OrderbookSnapshot : Type 0 where
  pub symbol : String
  pub snapshot_version : ℕ
  pub state_version : ℕ
  pub generation_id : ℕ
  pub bids_top_n : List (ℕ × ℕ)
  pub asks_top_n : List (ℕ × ℕ)
  pub bid_count : ℕ
  pub ask_count : ℕ
  pub best_bid : Option ℕ
  pub best_ask : Option ℕ
  pub spread : Option ℤ
  pub mid : Option ℕ
  pub last_update_id : Option ℕ
  pub last_book_update_monotonic_ns : Option ℕ
  pub local_recv_monotonic_ns : ℕ
  pub local_recv_wall_ts : String

-- `warnings` is left out: no caller of `_result` gives any.
pub record OrderbookApplyResult : Type 0 where
  pub accepted : Bool
  pub status : Status
  pub errors : List Reason
  pub first_update_id : Option ℕ
  pub final_update_id : Option ℕ
  pub previous_last_update_id : Option ℕ
  pub expected_next_update_id : Option ℕ
  pub state_version_before : ℕ
  pub state_version_after : ℕ
  pub snapshot_ready_before : Bool
  pub snapshot_ready_after : Bool
  pub ready_to_emit_after : Bool
  pub generation_before : ℕ
  pub generation_after : ℕ

-- The mapping that `_result_base` returns.
pub record ResultBase : Type 0 where
  pub first_update_id : Option ℕ
  pub final_update_id : Option ℕ
  pub previous_last_update_id : Option ℕ
  pub state_version_before : ℕ
  pub snapshot_ready_before : Bool
  pub generation_before : ℕ

pub record OrderbookState : Type 0 where
  pub symbol : String
  pub bids : SideBook
  pub asks : SideBook
  pub snapshot_ready : Bool
  pub ready_to_emit : Bool
  pub last_update_id : Option ℕ
  pub snapshot_last_update_id : Option ℕ
  pub required_fresh_snapshot_after_update_id : Option ℕ
  pub state_version : ℕ
  pub generation : ℕ
  pub sequence_continuous : Bool
  pub awaiting_first_delta_after_snapshot : Bool
  pub last_not_ready_reason : Option NotReadyReason
  pub last_message_recv_monotonic_ns : Option ℕ
  pub last_book_update_monotonic_ns : Option ℕ
  pub last_successful_apply_monotonic_ns : Option ℕ
  pub last_stale_check_monotonic_ns : Option ℕ
  pub last_local_recv_monotonic_ns : Option ℕ
  pub last_local_recv_wall_ts : Option String
  pub ready_false_since_monotonic_ns : Option ℕ
  pub ready_false_warning_after_ns : ℕ
  pub ready_to_emit_false_duration_ns_max : ℕ
  pub ready_to_emit_false_warning_count : ℕ

-- What `monotonic_now_ns()` and `_utc_iso_now()` return during one call.
pub record Clocks : Type 0 where
  pub monotonic_now_ns : ℕ
  pub utc_iso_now : String

-- The arguments of `apply_snapshot`.
pub record SnapshotMessage : Type 0 where
  pub bids : List Row
  pub asks : List Row
  pub last_update_id : ℕ
  pub local_recv_monotonic_ns : ℕ
  pub local_recv_wall_ts : Option String
  pub generation : Option ℕ

-- The arguments of `apply_delta`.
pub record DeltaMessage : Type 0 where
  pub first_update_id : ℕ
  pub final_update_id : ℕ
  pub bids : List Row
  pub asks : List Row
  pub local_recv_monotonic_ns : ℕ
  pub previous_final_update_id : Option ℕ

-- ===== src/Ingest/Tests.antt =====
-- A session on small inputs.
use somethingtrade.Prelude.{◌≡◌, ◌↔◌, true, false, none, []}
use somethingtrade.Orderbook.Types.{OrderbookState}
use somethingtrade.Orderbook.Sequence.{IsAcceptable}
use somethingtrade.Orderbook.Tests.{clocks, bridge, with_snapshot}
use somethingtrade.Queue.{init}
use somethingtrade.Lifecycle.{new_tracker}
use somethingtrade.Stale.{Limits}
use somethingtrade.Ingest.{Session, process_delta}
use somethingtrade.Ingest.Account.{process_delta-accepted_iff}

abbrev limits : Limits
limits = record { stale_threshold_ns = 50; feed_receive_stale_threshold_ns = 100 }

abbrev session : OrderbookState → Session
session state = record {
  feed = record {
    symbol = "BTCUSDT";
    state = state;
    last_ws_message_recv_monotonic_ns = none;
    open_stale_period = none;
    post_capture_warning = false;
    processor_apply_stale = false;
    processor_apply_stale_consecutive_checks = 0;
    snapshot_recovery_active = false;
  };
  watch = record {
    stale_periods = [];
    processor_apply_stale_warnings = [];
    post_capture_age_warnings = [];
    feed_receive_stale_count = 0;
    active_feed_stale_count = 0;
    stale_book_count = 0;
    stale_reset_count = 0;
    processor_apply_stale_count = 0;
    max_book_age_ns = 0;
    last_book_update_age_ns_at_report = none;
    queue_monitor = init (record {
      capacity = none;
      ratio_numerator = 8;
      ratio_denominator = 10;
      severe_lag_ns = 100;
      processing_lag_severe_ns = 100;
      snapshot_blocking_lag_ns = 100;
      sample_capacity = 2;
    });
    lifecycle = new_tracker;
  };
  messages_received = 0;
  messages_parsed = 0;
  deltas_accepted = 0;
  deltas_rejected = 0;
  first_delta_bridge_failed_count = 0;
  previous_final_update_id_mismatch_count = 0;
  ready_to_emit_disabled_count = 0;
  invalid_delta_count = 0;
  post_snapshot_trace_count = 0;
  updates_processed_since_snapshot = 0;
  last_snapshot_last_update_id = none;
}

process_delta-accepted_iff_example :
    ((process_delta limits clocks bridge (session with_snapshot)).1.accepted ≡ true)
    ↔ IsAcceptable bridge with_snapshot
process_delta-accepted_iff_example =
    process_delta-accepted_iff limits clocks bridge (session with_snapshot)

-- ===== src/Stale/Tests.antt =====
-- Checks of a silent feed.
use somethingtrade.Prelude.{ℕ, ◌+◌, ◌≡◌, refl, true, false, none, some, [], ◌∷◌}
use somethingtrade.Orderbook.State.{book_age_ns}
use somethingtrade.Orderbook.Tests.{clocks, with_bridge}
use somethingtrade.Queue.{QueueBackpressureMonitor, init}
use somethingtrade.Lifecycle.{new_tracker}
use somethingtrade.Stale.{Limits, Feed, Watch}
use somethingtrade.Stale.Check.{Check, check_feed, note_age}
use somethingtrade.Stale.Verdict.{Verdict, check_feed-Verdict}
use somethingtrade.Stale.Silence.{run_checks, run_checks-silent}

abbrev limits : Limits
limits = record { stale_threshold_ns = 50; feed_receive_stale_threshold_ns = 100 }

abbrev feed : Feed
feed = record {
  symbol = "BTCUSDT";
  state = with_bridge;
  last_ws_message_recv_monotonic_ns = some 30;
  open_stale_period = none;
  post_capture_warning = false;
  processor_apply_stale = false;
  processor_apply_stale_consecutive_checks = 0;
  snapshot_recovery_active = false;
}

abbrev monitor : QueueBackpressureMonitor
monitor = init (record {
  capacity = none;
  ratio_numerator = 8;
  ratio_denominator = 10;
  severe_lag_ns = 100;
  processing_lag_severe_ns = 100;
  snapshot_blocking_lag_ns = 100;
  sample_capacity = 2;
})

abbrev watch : Watch
watch = record {
  stale_periods = [];
  processor_apply_stale_warnings = [];
  post_capture_age_warnings = [];
  feed_receive_stale_count = 0;
  active_feed_stale_count = 0;
  stale_book_count = 0;
  stale_reset_count = 0;
  processor_apply_stale_count = 0;
  max_book_age_ns = 0;
  last_book_update_age_ns_at_report = none;
  queue_monitor = monitor;
  lifecycle = new_tracker;
}

abbrev check_at : ℕ → Check
check_at now = record { now_monotonic_ns = now; active = true; queue_size = 0 }

check_feed-Verdict_example :
    let (s, age) = book_age_ns 200 with_bridge in
    Verdict limits
      (check_at 200)
      (record feed { state = s })
      (note_age age watch)
      (check_feed limits clocks (check_at 200) feed watch)
check_feed-Verdict_example = check_feed-Verdict limits clocks (check_at 200) feed watch

run_checks-silent_example :
    ((run_checks limits
        ((clocks, check_at 200) ∷ (clocks, check_at 300) ∷ [])
        feed
        watch).0.state.generation
      ≡ with_bridge.generation + 1)
    × ((run_checks limits
          ((clocks, check_at 200) ∷ (clocks, check_at 300) ∷ [])
          feed
          watch).1.stale_reset_count
        ≡ 1)
run_checks-silent_example =
    run_checks-silent limits clocks (check_at 200) ((clocks, check_at 300) ∷ []) feed watch
      ((refl, refl), ((refl, refl), tt)) refl

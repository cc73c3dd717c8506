-- ===== src/Emission/Tests.antt =====
-- A sample of a small book.
use somethingtrade.Prelude.{◌≡◌, refl, Bool, true, false, Option, none, some, [], arith}
use somethingtrade.Orderbook.Levels.{
  decimal_or_none, parse_price, parse_size, raw_level, parse_row, parse_levels,
}
use somethingtrade.Orderbook.Reasons.{rank, sorted_set}
use somethingtrade.Orderbook.Side.{apply_level, apply_levels, rebuild_prices, levels_of, is_current}
use somethingtrade.Orderbook.State.{
  init, record_message_recv, rebuild_price_indexes, ensure_price_indexes, best_bid, best_ask,
  active_level_errors, is_empty, book_errors, record_ready_false_age, refresh_ready_to_emit,
  mark_not_ready, result_base, result,
}
use somethingtrade.Orderbook.Updates.{
  load_book, snapshot_levels, snapshot_received, apply_snapshot, fail_closed, apply_book,
  delta_levels, delta_after_snapshot, delta_too_early, delta_received, apply_delta,
}
use somethingtrade.Orderbook.View.{
  copy_levels, copy_top_bid_levels, copy_top_ask_levels, snapshot_of, copy_snapshot,
}
use somethingtrade.Orderbook.State.{validate as validate_state}
use somethingtrade.Orderbook.Tests.{clocks, with_bridge, with_bridge-IsWellFormed}
use somethingtrade.Lifecycle.{new_tracker}
use somethingtrade.Quality.{
  OrderbookQualityValidator, OrderbookQualityResult, validate, collected_errors, state_errors,
  snapshot_structure_errors, mismatch_details, details, top_level_errors, lifecycle_flags,
}
use somethingtrade.Emission.{
  CleanSample, Emission, Delivery, validate_clean_sample_schema, clean_sample_from_snapshot,
  count_quality, block_sample, record_sample, maybe_emit_or_block_sample, sample_state,
}
use somethingtrade.Emission.Clean.{
  Counted, IsCleanOf, maybe_emit_or_block_sample-Counted, sample_state-clean,
}

abbrev limits : OrderbookQualityValidator
limits = record {
  stale_after_ns = 1000;
  queue_lag_warning_ns = 100;
  queue_lag_severe_ns = 500;
  price_tolerance = 1;
  size_tolerance = 1;
}

abbrev delivery : Delivery
delivery = record {
  depth_n = 5;
  wall_ts = none;
  exchange_event_ts = none;
  observed = record {
    now_monotonic_ns = some 40;
    reported_best_bid = none;
    reported_best_ask = none;
    queue_lag_ns = some 20;
  };
}

abbrev counters : Emission
counters = record {
  strict_mismatch_count = 0;
  tolerant_mismatch_count = 0;
  crossed_book_count = 0;
  stale_book_count = 0;
  samples_blocked = 0;
  samples_emitted = 0;
  clean_sample_schema_violation_count = 0;
  blocked_by_quality_error = [];
  lifecycle = new_tracker;
  clean_samples = [];
}

abbrev quality : OrderbookQualityResult
quality =
    (validate limits (snapshot_of clocks none none with_bridge [] []) none delivery.observed).1

-- A snapshot with no levels is blocked.
maybe_emit_or_block_sample-Counted_example :
    let (e', sample) =
      maybe_emit_or_block_sample 5 none
        (snapshot_of clocks none none with_bridge [] [])
        quality
        counters in
    Counted quality
      (clean_sample_from_snapshot 5 none (snapshot_of clocks none none with_bridge [] []) quality)
      counters
      e'
      sample
maybe_emit_or_block_sample-Counted_example =
    maybe_emit_or_block_sample-Counted 5 none (snapshot_of clocks none none with_bridge [] [])
      quality counters

abbrev or_empty : Option CleanSample → CleanSample
or_empty none =
    clean_sample_from_snapshot 5 none (snapshot_of clocks none none with_bridge [] []) quality
or_empty (some x) = x

abbrev is_some : Option CleanSample → Bool
is_some none = false
is_some (some x) = true

is_some-or_empty : (o : Option CleanSample) → is_some o ≡ true → o ≡ some (or_empty o)
is_some-or_empty none h = cc
is_some-or_empty (some x) h = refl

abbrev sample : CleanSample
sample = or_empty (sample_state limits clocks delivery with_bridge counters).sample

is_sampled : is_some (sample_state limits clocks delivery with_bridge counters).sample ≡ true
unfolding init record_message_recv rebuild_price_indexes ensure_price_indexes best_bid best_ask
    active_level_errors is_empty book_errors record_ready_false_age refresh_ready_to_emit
    mark_not_ready result_base result load_book snapshot_levels snapshot_received apply_snapshot
    fail_closed apply_book delta_levels delta_after_snapshot delta_too_early delta_received
    apply_delta decimal_or_none parse_price parse_size raw_level parse_row parse_levels rank
    sorted_set apply_level apply_levels rebuild_prices levels_of is_current validate_state
    copy_levels copy_top_bid_levels copy_top_ask_levels snapshot_of copy_snapshot validate
    collected_errors state_errors snapshot_structure_errors mismatch_details details
    top_level_errors lifecycle_flags validate_clean_sample_schema clean_sample_from_snapshot
    count_quality block_sample record_sample maybe_emit_or_block_sample sample_state
is_sampled = refl

sample_state-clean_example : IsCleanOf limits clocks delivery with_bridge sample
sample_state-clean_example =
    sample_state-clean limits clocks delivery with_bridge counters sample with_bridge-IsWellFormed
      (omega arith)
      (is_some-or_empty (sample_state limits clocks delivery with_bridge counters).sample
        is_sampled)

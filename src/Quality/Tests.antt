-- ===== src/Quality/Tests.antt =====
-- The quality checks on a small book.
use somethingtrade.Prelude.{◌≡◌, ◌↔◌, true, none, some, [], ◌∷◌}
use somethingtrade.Prelude.Int.{pos}
use somethingtrade.Orderbook.Types.{OrderbookSnapshot}
use somethingtrade.Orderbook.View.{snapshot_of}
use somethingtrade.Orderbook.Tests.{clocks, with_bridge, with_bridge-IsWellFormed}
use somethingtrade.Quality.{OrderbookQualityValidator, Observed, validate}
use somethingtrade.Quality.Gate.{Passes, validate-is_valid_iff}

abbrev limits : OrderbookQualityValidator
limits = record {
  stale_after_ns = 1000;
  queue_lag_warning_ns = 100;
  queue_lag_severe_ns = 500;
  price_tolerance = 1;
  size_tolerance = 1;
}

abbrev copy : OrderbookSnapshot
copy = snapshot_of clocks none none with_bridge ((101, 7) ∷ (99, 3) ∷ []) ((102, 4) ∷ [])

abbrev observed : Observed
observed = record {
  now_monotonic_ns = some 40;
  reported_best_bid = some (pos 101);
  reported_best_ask = none;
  queue_lag_ns = some 20;
}

validate-is_valid_iff_example :
    ((validate limits copy (some with_bridge) observed).1.is_valid ≡ true)
    ↔ Passes limits copy with_bridge observed
validate-is_valid_iff_example =
    validate-is_valid_iff limits copy with_bridge observed with_bridge-IsWellFormed

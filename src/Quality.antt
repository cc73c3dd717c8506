-- ===== src/Quality.antt =====
-- bot/app/marketdata/orderbook_quality.py: the checks that a book snapshot passes before it becomes
-- a sample. Times are nanoseconds; prices, sizes and tolerances are quanta. A reported best price
-- comes as the finite decimal that it reads as.
pub mod Gate
mod Tests
use somethingtrade.Prelude.{
  ℕ, ◌+◌, ◌-◌, Bool, true, false, not, ◌&&◌, ◌||◌, Option, none, some, List, [], ◌∷◌, ◌++◌, ◌==◌,
  ltb, if◌then◌else◌, length,
}
use somethingtrade.Prelude.Int.{ℤ, pos, negsuc, sub_ℕ, ltb_ℤ}
use somethingtrade.Orderbook.Types.{
  OrderbookState, OrderbookSnapshot, Reason, best_ask_missing, best_bid_missing, book_empty,
  crossed_book, one_side_missing, queue_lag_exceeded, reported_best_ask_mismatch,
  reported_best_bid_mismatch, sample_before_book_ready, snapshot_inconsistent, stale_book,
  invalid_price_level, invalid_size_level, negative_price, negative_size,
}
use somethingtrade.Orderbook.Reasons.{sorted_set}
use somethingtrade.Orderbook.State

pub record OrderbookQualityValidator : Type 0 where
  pub stale_after_ns : ℕ
  pub queue_lag_warning_ns : ℕ
  pub queue_lag_severe_ns : ℕ
  pub price_tolerance : ℕ
  pub size_tolerance : ℕ

-- The mapping of details, for the strict test (tolerance zero) or the tolerant one. Both kinds are one
-- record: the tolerances that the tolerant mapping repeats stand in the validator.
pub record MismatchDetails : Type 0 where
  pub bid_mismatch : Bool
  pub ask_mismatch : Bool
  pub any_mismatch : Bool
  pub computed_best_bid : Option ℕ
  pub computed_best_ask : Option ℕ
  pub reported_best_bid : Option ℤ
  pub reported_best_ask : Option ℤ
  pub bid_diff : Option ℕ
  pub ask_diff : Option ℕ

pub record LifecycleFlags : Type 0 where
  pub snapshot_ready : Bool
  pub ready_to_emit : Bool
  pub sequence_continuous : Bool

pub record OrderbookQualityResult : Type 0 where
  pub is_valid : Bool
  pub errors : List Reason
  pub warnings : List Reason
  pub bid_count : ℕ
  pub ask_count : ℕ
  pub best_bid : Option ℕ
  pub best_ask : Option ℕ
  pub spread : Option ℤ
  pub mid : Option ℕ
  pub book_age_ns : Option ℤ
  pub strict_mismatch_details : MismatchDetails
  pub tolerant_mismatch_details : MismatchDetails
  pub lifecycle_flags : LifecycleFlags

-- The arguments of `validate` beside the snapshot and the state.
pub record Observed : Type 0 where
  pub now_monotonic_ns : Option ℕ
  pub reported_best_bid : Option ℤ
  pub reported_best_ask : Option ℤ
  pub queue_lag_ns : Option ℕ

-- `abs(best - reported)`
abbrev pub distance : ℕ → ℤ → ℕ
distance best (pos n) = (best - n) + (n - best)
distance best (negsuc n) = best + n + 1

abbrev pub diff_of : Option ℕ → Option ℤ → Option ℕ
diff_of none reported = none
diff_of (some best) none = none
diff_of (some best) (some reported) = some (distance best reported)

abbrev pub exceeds : ℕ → Option ℕ → Bool
exceeds tolerance none = false
exceeds tolerance (some diff) = ltb tolerance diff

unfoldable pub details : ℕ → OrderbookSnapshot → Observed → MismatchDetails
details tolerance snapshot o =
    let bid_diff = diff_of snapshot.best_bid o.reported_best_bid in
    let ask_diff = diff_of snapshot.best_ask o.reported_best_ask in
    record {
      bid_mismatch = exceeds tolerance bid_diff;
      ask_mismatch = exceeds tolerance ask_diff;
      any_mismatch = exceeds tolerance bid_diff || exceeds tolerance ask_diff;
      computed_best_bid = snapshot.best_bid;
      computed_best_ask = snapshot.best_ask;
      reported_best_bid = o.reported_best_bid;
      reported_best_ask = o.reported_best_ask;
      bid_diff = bid_diff;
      ask_diff = ask_diff;
    }

-- A difference other than zero is one above zero.
unfoldable pub mismatch_details :
    OrderbookQualityValidator → OrderbookSnapshot → Observed → MismatchDetails × MismatchDetails
unfolding details
mismatch_details v snapshot o = (details 0 snapshot o, details v.price_tolerance snapshot o)

unfoldable pub snapshot_structure_errors : OrderbookSnapshot → List Reason
snapshot_structure_errors snapshot =
    State.flag (snapshot.bid_count == 0 && snapshot.ask_count == 0) book_empty
    ++ (State.flag (snapshot.bid_count == 0 || snapshot.ask_count == 0) one_side_missing
        ++ (State.flag (State.is_none snapshot.best_bid) best_bid_missing
            ++ (State.flag (State.is_none snapshot.best_ask) best_ask_missing
                ++ State.flag (State.crossed snapshot.best_bid snapshot.best_ask) crossed_book)))

-- The prices and sizes are finite by their type, so two of the four tests are left.
unfoldable pub top_level_errors : List (ℕ × ℕ) → List Reason
top_level_errors [] = []
top_level_errors ((price, size) ∷ levels) =
    (if price == 0 then negative_price ∷ invalid_price_level ∷ [] else [])
    ++ ((if size == 0 then negative_size ∷ invalid_size_level ∷ [] else [])
        ++ top_level_errors levels)

abbrev pub age_of : Option ℕ → Option ℕ → Option ℤ
age_of none updated = none
age_of (some now) none = none
age_of (some now) (some updated) = some (sub_ℕ now updated)

abbrev pub is_stale : ℕ → Option ℤ → Bool
is_stale limit none = false
is_stale limit (some age) = ltb_ℤ (pos limit) age

-- The constant entries of the mapping are left out.
unfoldable pub lifecycle_flags : Option OrderbookState → LifecycleFlags
lifecycle_flags none = record {
  snapshot_ready = false;
  ready_to_emit = false;
  sequence_continuous = false;
}
lifecycle_flags (some s) = record {
  snapshot_ready = s.snapshot_ready;
  ready_to_emit = s.ready_to_emit;
  sequence_continuous = s.sequence_continuous;
}

-- The errors of the state, or of the snapshot alone where no state is given.
unfoldable pub state_errors :
    OrderbookSnapshot → Option OrderbookState → Option OrderbookState × List Reason
unfolding snapshot_structure_errors
state_errors snapshot none = (none, snapshot_structure_errors snapshot)
state_errors snapshot (some s0) =
    let (s, errors) = State.validate s0 in
    (
      some s,
      errors
          ++ (State.flag (not s.snapshot_ready || not s.ready_to_emit) sample_before_book_ready
              ++ State.flag (not s.sequence_continuous) Reason.sequence_gap_or_reset),
    )

abbrev lag_errors : OrderbookQualityValidator → Option ℕ → List Reason
lag_errors v lag = State.flag (exceeds v.queue_lag_severe_ns lag) queue_lag_exceeded

abbrev lag_warnings : OrderbookQualityValidator → Option ℕ → List Reason
lag_warnings v lag =
    State.flag (not (exceeds v.queue_lag_severe_ns lag) && exceeds v.queue_lag_warning_ns lag)
      queue_lag_exceeded

-- The errors in the order in which they are collected, and the state after its own `validate`.
unfoldable pub collected_errors :
    OrderbookQualityValidator
    → OrderbookSnapshot
    → Option OrderbookState
    → Observed
    → Option OrderbookState × List Reason
unfolding state_errors mismatch_details top_level_errors
collected_errors v snapshot state o =
    let (state', first) = state_errors snapshot state in
    let (strict, tolerant) = mismatch_details v snapshot o in
    (
      state',
      first
          ++ (State.flag (not (snapshot.snapshot_version == snapshot.state_version))
                snapshot_inconsistent
              ++ (top_level_errors (snapshot.bids_top_n ++ snapshot.asks_top_n)
                  ++ (State.flag
                        (is_stale v.stale_after_ns
                          (age_of o.now_monotonic_ns snapshot.last_book_update_monotonic_ns))
                        stale_book
                      ++ (lag_errors v o.queue_lag_ns
                          ++ (State.flag strict.bid_mismatch reported_best_bid_mismatch
                              ++ State.flag strict.ask_mismatch reported_best_ask_mismatch))))),
    )

unfoldable pub validate :
    OrderbookQualityValidator
    → OrderbookSnapshot
    → Option OrderbookState
    → Observed
    → Option OrderbookState × OrderbookQualityResult
validate v snapshot state o =
    let (state', found) = collected_errors v snapshot state o in
    let errors = sorted_set found in
    let (strict, tolerant) = mismatch_details v snapshot o in
    (
      state',
      record {
        is_valid = State.is_empty errors;
        errors = errors;
        warnings = sorted_set (lag_warnings v o.queue_lag_ns);
        bid_count = snapshot.bid_count;
        ask_count = snapshot.ask_count;
        best_bid = snapshot.best_bid;
        best_ask = snapshot.best_ask;
        spread = snapshot.spread;
        mid = snapshot.mid;
        book_age_ns = age_of o.now_monotonic_ns snapshot.last_book_update_monotonic_ns;
        strict_mismatch_details = strict;
        tolerant_mismatch_details = tolerant;
        lifecycle_flags = lifecycle_flags state';
      },
    )

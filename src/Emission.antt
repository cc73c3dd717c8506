-- ===== src/Emission.antt =====
-- The sample of an accepted delta, of bot/app/marketdata/orderbook_phase41.py: `copy_snapshot`, the
-- quality checks, `_maybe_emit_or_block_sample`, `clean_sample_from_snapshot` and
-- `validate_clean_sample_schema`.
--
-- A sample is a record, so an entry can be null but not missing or of another type, and its decimals
-- are finite. Violations stay in the order of the checks. The debug recorder, the latency profile and
-- the samples of copy times are left out.
pub mod Clean
mod Tests
use somethingtrade.Prelude.{
  ℕ, ◌+◌, Bool, true, false, not, ◌&&◌, String, str_eq, Option, none, some, List, [], ◌∷◌, ◌++◌,
  ltb, leb, ◌==◌, if◌then◌else◌, max,
}
use somethingtrade.Prelude.Int.{ℤ, pos, negsuc}
use somethingtrade.Orderbook.Types.{
  OrderbookState, OrderbookSnapshot, Clocks, Reason, crossed_book, stale_book,
}
use somethingtrade.Orderbook.Reasons.{rank, mentions}
use somethingtrade.Orderbook.View.{copy_snapshot}
use somethingtrade.Lifecycle.{WsLifecycleTracker, on_sample_blocked_by_ready_guard}
use somethingtrade.Quality.{
  OrderbookQualityValidator, OrderbookQualityResult, LifecycleFlags, Observed, validate,
}

pub record CleanSample : Type 0 where
  pub symbol : String
  pub generation_id : ℕ
  pub local_recv_monotonic_ns : ℕ
  pub local_recv_wall_ts : String
  pub exchange_event_ts : Option ℕ
  pub state_version : ℕ
  pub snapshot_version : ℕ
  pub last_update_id : Option ℕ
  pub depth_n : ℕ
  pub bids : List (ℕ × ℕ)
  pub asks : List (ℕ × ℕ)
  pub best_bid : Option ℕ
  pub best_ask : Option ℕ
  pub spread : Option ℤ
  pub mid : Option ℕ
  pub bid_count : ℕ
  pub ask_count : ℕ
  pub book_age_ns : Option ℤ
  pub is_valid : Bool
  pub errors : List Reason
  pub warnings : List Reason
  pub lifecycle : LifecycleFlags

pub data Violation : Type 0 where
  last_update_id_null best_bid_null best_ask_null book_age_ms_null wall_timestamp_missing :
      Violation
  bids_empty asks_empty bids_unsorted asks_unsorted negative_price zero_size_level : Violation
  best_prices_crossed book_age_ms_negative quality_errors_present : Violation
  snapshot_not_ready not_ready_to_emit sequence_not_continuous : Violation

abbrev pub flag : Bool → Violation → List Violation
flag true v = v ∷ []
flag false v = []

abbrev is_null {ℓ} : {A : Type ℓ} → Option A → Bool
is_null none = true
is_null (some a) = false

-- `_validate_sample_levels`
abbrev pub level_violations : List (ℕ × ℕ) → List Violation
level_violations [] = []
level_violations ((price, size) ∷ l) =
    flag (price == 0) negative_price ++ (flag (size == 0) zero_size_level ++ level_violations l)

abbrev pub side_violations : Violation → List (ℕ × ℕ) → List Violation
side_violations empty [] = empty ∷ []
side_violations empty (level ∷ l) = level_violations (level ∷ l)

-- Whether the prices are as sorting would leave them, upwards or downwards.
abbrev pub is_ascending : List (ℕ × ℕ) → Bool
is_ascending [] = true
is_ascending (p ∷ []) = true
is_ascending (p ∷ q ∷ l) = leb p.0 q.0 && is_ascending (q ∷ l)

abbrev pub is_descending : List (ℕ × ℕ) → Bool
is_descending [] = true
is_descending (p ∷ []) = true
is_descending (p ∷ q ∷ l) = leb q.0 p.0 && is_descending (q ∷ l)

abbrev pub is_crossed : Option ℕ → Option ℕ → Bool
is_crossed none ask = false
is_crossed (some bid) none = false
is_crossed (some bid) (some ask) = leb ask bid

abbrev pub is_negative : Option ℤ → Bool
is_negative none = false
is_negative (some (pos n)) = false
is_negative (some (negsuc n)) = true

abbrev has_errors : List Reason → Bool
has_errors [] = false
has_errors (e ∷ l) = true

unfoldable pub validate_clean_sample_schema : CleanSample → List Violation
validate_clean_sample_schema x =
    flag (is_null x.last_update_id) last_update_id_null
    ++ (flag (is_null x.best_bid) best_bid_null
        ++ (flag (is_null x.best_ask) best_ask_null
            ++ (flag (is_null x.book_age_ns) book_age_ms_null
                ++ (flag (str_eq x.local_recv_wall_ts "") wall_timestamp_missing
                    ++ (side_violations bids_empty x.bids
                        ++ (side_violations asks_empty x.asks
                            ++ (flag (not (is_descending x.bids)) bids_unsorted
                                ++ (flag (not (is_ascending x.asks)) asks_unsorted
                                    ++ (flag (is_crossed x.best_bid x.best_ask) best_prices_crossed
                                        ++ (flag (is_negative x.book_age_ns) book_age_ms_negative
                                            ++ (flag (has_errors x.errors) quality_errors_present
                                                ++ (flag (not x.lifecycle.snapshot_ready)
                                                      snapshot_not_ready
                                                    ++ (flag (not x.lifecycle.ready_to_emit)
                                                          not_ready_to_emit
                                                        ++ flag
                                                            (not x.lifecycle.sequence_continuous)
                                                            sequence_not_continuous)))))))))))))

unfoldable pub clean_sample_from_snapshot :
    ℕ → Option ℕ → OrderbookSnapshot → OrderbookQualityResult → CleanSample
clean_sample_from_snapshot depth_n exchange_event_ts snapshot quality = record {
  symbol = snapshot.symbol;
  generation_id = snapshot.generation_id;
  local_recv_monotonic_ns = snapshot.local_recv_monotonic_ns;
  local_recv_wall_ts = snapshot.local_recv_wall_ts;
  exchange_event_ts = exchange_event_ts;
  state_version = snapshot.state_version;
  snapshot_version = snapshot.snapshot_version;
  last_update_id = snapshot.last_update_id;
  depth_n = depth_n;
  bids = snapshot.bids_top_n;
  asks = snapshot.asks_top_n;
  best_bid = snapshot.best_bid;
  best_ask = snapshot.best_ask;
  spread = snapshot.spread;
  mid = snapshot.mid;
  bid_count = snapshot.bid_count;
  ask_count = snapshot.ask_count;
  book_age_ns = quality.book_age_ns;
  is_valid = quality.is_valid;
  errors = quality.errors;
  warnings = quality.warnings;
  lifecycle = quality.lifecycle_flags;
}

-- The counters of samples, and the samples that are recorded.
pub record Emission : Type 0 where
  pub strict_mismatch_count : ℕ
  pub tolerant_mismatch_count : ℕ
  pub crossed_book_count : ℕ
  pub stale_book_count : ℕ
  pub samples_blocked : ℕ
  pub samples_emitted : ℕ
  pub clean_sample_schema_violation_count : ℕ
  pub blocked_by_quality_error : List (Reason × ℕ)
  pub lifecycle : WsLifecycleTracker
  pub clean_samples : List CleanSample

abbrev up_if : Bool → ℕ → ℕ
up_if true n = n + 1
up_if false n = n

unfoldable pub count_quality : OrderbookQualityResult → Emission → Emission
count_quality q e = record e {
  strict_mismatch_count = up_if q.strict_mismatch_details.any_mismatch e.strict_mismatch_count;
  tolerant_mismatch_count =
      up_if q.tolerant_mismatch_details.any_mismatch e.tolerant_mismatch_count;
  crossed_book_count = up_if (mentions q.errors crossed_book) e.crossed_book_count;
  stale_book_count = up_if (mentions q.errors stale_book) e.stale_book_count;
}

abbrev count_error : Reason → List (Reason × ℕ) → List (Reason × ℕ)
count_error error [] = (error, 1) ∷ []
count_error error ((r, n) ∷ counts) =
    if rank r == rank error then (r, n + 1) ∷ counts else (r, n) ∷ count_error error counts

abbrev count_errors : List Reason → List (Reason × ℕ) → List (Reason × ℕ)
count_errors [] counts = counts
count_errors (error ∷ errors) counts = count_errors errors (count_error error counts)

-- A snapshot that is not valid gives no sample.
unfoldable pub block_sample : OrderbookQualityResult → Emission → Emission
block_sample q e = record e {
  samples_blocked = e.samples_blocked + 1;
  blocked_by_quality_error = count_errors q.errors e.blocked_by_quality_error;
  lifecycle = on_sample_blocked_by_ready_guard e.lifecycle;
}

-- A sample is recorded if it violates nothing.
unfoldable pub record_sample :
    List Violation → CleanSample → Emission → Emission × Option CleanSample
record_sample [] x e = (
  record e { samples_emitted = e.samples_emitted + 1; clean_samples = e.clean_samples ++ x ∷ [] },
  some x,
)
record_sample (v ∷ violations) x e = (
  record e {
    samples_blocked = e.samples_blocked + 1;
    clean_sample_schema_violation_count = e.clean_sample_schema_violation_count + 1;
  },
  none,
)

abbrev pub emit_if_valid :
    Bool → CleanSample → OrderbookQualityResult → Emission → Emission × Option CleanSample
emit_if_valid true x q e = record_sample (validate_clean_sample_schema x) x e
emit_if_valid false x q e = (block_sample q e, none)

-- `_maybe_emit_or_block_sample`, with the sample that it records, if it does.
unfoldable pub maybe_emit_or_block_sample :
    ℕ
    → Option ℕ
    → OrderbookSnapshot
    → OrderbookQualityResult
    → Emission
    → Emission × Option CleanSample
maybe_emit_or_block_sample depth_n exchange_event_ts snapshot q e =
    emit_if_valid q.is_valid (clean_sample_from_snapshot depth_n exchange_event_ts snapshot q) q
      (count_quality q e)

-- The receive time of the copy: now, or the last receipt where the clock is behind it.
abbrev pub copy_time : Option ℕ → ℕ → ℕ
copy_time none now = now
copy_time (some last) now = max now last

-- What a delta brings with it for its sample.
pub record Delivery : Type 0 where
  pub depth_n : ℕ
  pub wall_ts : Option String
  pub exchange_event_ts : Option ℕ
  pub observed : Observed

-- What is left after the copy: the state, the counters, and the sample.
pub record Sampled : Type 0 where
  pub state : OrderbookState
  pub emission : Emission
  pub sample : Option CleanSample

abbrev pub or_state : Option OrderbookState → OrderbookState → OrderbookState
or_state none s = s
or_state (some s') s = s'

abbrev pub sampled : OrderbookState → Emission × Option CleanSample → Sampled
sampled s (e, x) = record { state = s; emission = e; sample = x }

-- The checks and the sample of a copy; `none` is the `KeyError` of the copy.
abbrev pub check_copy :
    OrderbookQualityValidator
    → Delivery
    → Option OrderbookSnapshot
    → OrderbookState
    → Emission
    → Sampled
check_copy v d none s e = sampled s (e, none)
check_copy v d (some snapshot) s e =
    let (s', q) = validate v snapshot (some s) d.observed in
    sampled (or_state s' s) (maybe_emit_or_block_sample d.depth_n d.exchange_event_ts snapshot q e)

-- The part of `process_depth_update` that follows an accepted delta.
unfoldable pub sample_state :
    OrderbookQualityValidator → Clocks → Delivery → OrderbookState → Emission → Sampled
sample_state v clocks d s e =
    let (s', copy) =
      copy_snapshot clocks d.depth_n
        (some (copy_time s.last_local_recv_monotonic_ns clocks.monotonic_now_ns)) d.wall_ts s in
    check_copy v d copy s' e

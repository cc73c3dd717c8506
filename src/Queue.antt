-- ===== src/Queue.antt =====
-- bot/app/marketdata/queue_monitor.py: the queue's envelopes and the monitor of its size and lags.
-- Times and durations are nanoseconds. The clock is monotonic, so that a dequeue is not before its
-- enqueue, nor the end of a processing before its start.
pub mod Counts
pub mod Reach
pub mod Percentile
mod Tests
use somethingtrade.Prelude.{
  ℕ, zero, suc, ◌+◌, ◌-◌, ◌*◌, ◌/◌, ◌%◌, max, min, Bool, true, false, Option, none, some, List, [],
  ◌∷◌, ◌++◌, ltb, leb, ◌==◌, if◌then◌else◌, length, drop,
}

pub record QueueEnvelope (P : Type 0) : Type 0 where
  pub payload : P
  pub enqueue_monotonic_ns : ℕ
  pub queue_size_at_enqueue : ℕ
  pub queue_put_end_monotonic_ns : Option ℕ

-- The ratio is a fraction, `ratio_numerator / ratio_denominator`.
pub record QueueBackpressureMonitor : Type 0 where
  pub capacity : Option ℕ
  pub ratio_numerator : ℕ
  pub ratio_denominator : ℕ
  pub severe_lag_ns : ℕ
  pub processing_lag_severe_ns : ℕ
  pub snapshot_blocking_lag_ns : ℕ
  pub sample_capacity : ℕ
  pub queue_current_size : ℕ
  pub queue_max_size : ℕ
  pub queue_dropped_messages : ℕ
  pub queue_backpressure_events : ℕ
  pub queue_size_backpressure_events : ℕ
  pub queue_lag_backpressure_events : ℕ
  pub processing_lag_backpressure_events : ℕ
  pub snapshot_blocking_lag_events : ℕ
  pub enqueue_to_dequeue_lag_ns_max : ℕ
  pub max_processing_lag_ns : ℕ
  pub lag_samples : List ℕ
  pub processing_lag_samples : List ℕ
  pub snapshot_request_duration_samples : List ℕ
  pub snapshot_apply_duration_samples : List ℕ
  pub queue_depth_samples : List ℕ
  pub queue_put_block_samples : List ℕ
  pub queue_put_block_count : ℕ

-- The limits of the constructor's call.
pub record Limits : Type 0 where
  pub capacity : Option ℕ
  pub ratio_numerator : ℕ
  pub ratio_denominator : ℕ
  pub severe_lag_ns : ℕ
  pub processing_lag_severe_ns : ℕ
  pub snapshot_blocking_lag_ns : ℕ
  pub sample_capacity : ℕ

unfoldable pub init : Limits → QueueBackpressureMonitor
init l = record {
  capacity = l.capacity;
  ratio_numerator = l.ratio_numerator;
  ratio_denominator = l.ratio_denominator;
  severe_lag_ns = l.severe_lag_ns;
  processing_lag_severe_ns = l.processing_lag_severe_ns;
  snapshot_blocking_lag_ns = l.snapshot_blocking_lag_ns;
  sample_capacity = l.sample_capacity;
  queue_current_size = 0;
  queue_max_size = 0;
  queue_dropped_messages = 0;
  queue_backpressure_events = 0;
  queue_size_backpressure_events = 0;
  queue_lag_backpressure_events = 0;
  processing_lag_backpressure_events = 0;
  snapshot_blocking_lag_events = 0;
  enqueue_to_dequeue_lag_ns_max = 0;
  max_processing_lag_ns = 0;
  lag_samples = [];
  processing_lag_samples = [];
  snapshot_request_duration_samples = [];
  snapshot_apply_duration_samples = [];
  queue_depth_samples = [];
  queue_put_block_samples = [];
  queue_put_block_count = 0;
}

-- `append` on a `deque(maxlen=cap)`: the oldest samples give way.
pub push : ℕ → ℕ → List ℕ → List ℕ
push cap x l = drop (length l + 1 - cap) (l ++ x ∷ [])

refresh_backpressure_total : QueueBackpressureMonitor → QueueBackpressureMonitor
refresh_backpressure_total m = record m {
  queue_backpressure_events =
      m.queue_size_backpressure_events + m.queue_lag_backpressure_events
      + m.processing_lag_backpressure_events + m.snapshot_blocking_lag_events;
}

abbrev backpressured : Option ℕ → ℕ → ℕ → ℕ → Bool
backpressured none n d size = false
backpressured (some cap) n d size = if cap == 0 then false else leb (cap * n / d) size

is_backpressured : ℕ → QueueBackpressureMonitor → Bool
is_backpressured size m = backpressured m.capacity m.ratio_numerator m.ratio_denominator size

pub record_size : ℕ → QueueBackpressureMonitor → QueueBackpressureMonitor
unfolding push is_backpressured refresh_backpressure_total
record_size size m =
    let m1 = record m {
      queue_current_size = size;
      queue_max_size = max m.queue_max_size size;
      queue_depth_samples = push m.sample_capacity size m.queue_depth_samples;
    } in
    if is_backpressured size m1
    then refresh_backpressure_total
        (record m1 { queue_size_backpressure_events = m1.queue_size_backpressure_events + 1 })
    else m1

pub record_enqueue :
    {P : Type 0} → P → ℕ → ℕ → QueueBackpressureMonitor → QueueBackpressureMonitor × QueueEnvelope P
unfolding record_size
record_enqueue payload now size m = (
  record_size size m,
  record {
    payload = payload;
    enqueue_monotonic_ns = now;
    queue_size_at_enqueue = size;
    queue_put_end_monotonic_ns = none;
  },
)

pub record_processing_done : ℕ → ℕ → QueueBackpressureMonitor → QueueBackpressureMonitor × ℕ
unfolding push refresh_backpressure_total
record_processing_done dequeued done m =
    let lag = done - dequeued in
    let m1 = record m {
      max_processing_lag_ns = max m.max_processing_lag_ns lag;
      processing_lag_samples = push m.sample_capacity lag m.processing_lag_samples;
    } in
    (
      if ltb m.processing_lag_severe_ns lag
          then refresh_backpressure_total (record m1 {
            processing_lag_backpressure_events = m1.processing_lag_backpressure_events + 1;
          })
          else m1,
      lag,
    )

abbrev with_size : Option ℕ → QueueBackpressureMonitor → QueueBackpressureMonitor
with_size none m = m
with_size (some size) m = record m { queue_current_size = size }

abbrev with_done : ℕ → Option ℕ → QueueBackpressureMonitor → QueueBackpressureMonitor
with_done dequeued none m = m
with_done dequeued (some done) m = (record_processing_done dequeued done m).0

pub count_lag : ℕ → QueueBackpressureMonitor → QueueBackpressureMonitor
unfolding refresh_backpressure_total
count_lag lag m =
    if ltb m.severe_lag_ns lag
    then refresh_backpressure_total
        (record m { queue_lag_backpressure_events = m.queue_lag_backpressure_events + 1 })
    else m

-- The enqueue time stands for the envelope, of which nothing else is read.
pub record_dequeue :
    ℕ → ℕ → Option ℕ → Option ℕ → QueueBackpressureMonitor → QueueBackpressureMonitor × ℕ
unfolding push count_lag record_processing_done
record_dequeue enqueued dequeued done size m =
    let lag = dequeued - enqueued in
    let m1 = with_size size m in
    let m2 = record m1 {
      enqueue_to_dequeue_lag_ns_max = max m1.enqueue_to_dequeue_lag_ns_max lag;
      lag_samples = push m1.sample_capacity lag m1.lag_samples;
    } in
    (count_lag lag (with_done dequeued done m2), lag)

pub record_snapshot_request_duration : ℕ → QueueBackpressureMonitor → QueueBackpressureMonitor
unfolding push refresh_backpressure_total
record_snapshot_request_duration duration m =
    let m1 = record m {
      snapshot_request_duration_samples =
          push m.sample_capacity duration m.snapshot_request_duration_samples;
    } in
    if ltb m.snapshot_blocking_lag_ns duration
    then refresh_backpressure_total
        (record m1 { snapshot_blocking_lag_events = m1.snapshot_blocking_lag_events + 1 })
    else m1

pub record_snapshot_apply_duration : ℕ → QueueBackpressureMonitor → QueueBackpressureMonitor
unfolding push
record_snapshot_apply_duration duration m = record m {
  snapshot_apply_duration_samples =
      push m.sample_capacity duration m.snapshot_apply_duration_samples;
}

pub record_queue_put_duration : ℕ → Bool → QueueBackpressureMonitor → QueueBackpressureMonitor
unfolding push
record_queue_put_duration duration blocked m = record m {
  queue_put_block_samples = push m.sample_capacity duration m.queue_put_block_samples;
  queue_put_block_count = if blocked then m.queue_put_block_count + 1 else m.queue_put_block_count;
}

pub record_snapshot_blocking_lag : ℕ → QueueBackpressureMonitor → QueueBackpressureMonitor
unfolding refresh_backpressure_total
record_snapshot_blocking_lag count m =
    refresh_backpressure_total
      (record m { snapshot_blocking_lag_events = m.snapshot_blocking_lag_events + count })

unfoldable pub record_drop : ℕ → QueueBackpressureMonitor → QueueBackpressureMonitor
unfolding refresh_backpressure_total
record_drop count m = refresh_backpressure_total (record m {
  queue_dropped_messages = m.queue_dropped_messages + count;
  queue_size_backpressure_events = m.queue_size_backpressure_events + count;
})

-- `round(x)` for `x` the given hundredths: to the nearest, and to the even one of two.
round_hundredths : ℕ → ℕ
round_hundredths x =
    let q = x / 100 in
    let r = x % 100 in
    if ltb r 50 then q else if ltb 50 r then q + 1 else if q % 2 == 0 then q else q + 1

abbrev nth_or : List ℕ → ℕ → ℕ
nth_or [] i = 0
nth_or (x ∷ l) zero = x
nth_or (x ∷ l) (suc i) = nth_or l i

-- `_percentile`, for a percentage.
pub percentile : List ℕ → ℕ → ℕ
unfolding round_hundredths
percentile [] percent = 0
percentile (x ∷ []) percent = x
percentile (x ∷ y ∷ l) percent =
    let last = length (y ∷ l) in nth_or (x ∷ y ∷ l) (min last (round_hundredths (last * percent)))

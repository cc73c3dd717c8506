-- ===== src/Queue/Reach.antt =====
-- The runs of the queue monitor: any sequence of calls of its methods, from a new monitor.
use somethingtrade.Prelude.{ℕ, ◌-◌, refl, max, Bool, Option, none, some, arith}
use somethingtrade.Queue
use somethingtrade.Queue.Counts.{
  IsConsistent, push-Within, length-push, size-IsConsistent, processed-IsConsistent,
  lag-IsConsistent, requested-IsConsistent,
}

-- One call of a method of the monitor.
pub data Step : Queue.QueueBackpressureMonitor → Queue.QueueBackpressureMonitor → Type 0 where
  enqueue :
      (now size : ℕ) (m : Queue.QueueBackpressureMonitor)
      → Step m (Queue.record_enqueue tt now size m).0
  dequeue :
      (enqueued dequeued : ℕ) (done size : Option ℕ) (m : Queue.QueueBackpressureMonitor)
      → Step m (Queue.record_dequeue enqueued dequeued done size m).0
  processed :
      (dequeued done : ℕ) (m : Queue.QueueBackpressureMonitor)
      → Step m (Queue.record_processing_done dequeued done m).0
  requested :
      (duration : ℕ) (m : Queue.QueueBackpressureMonitor)
      → Step m (Queue.record_snapshot_request_duration duration m)
  applied :
      (duration : ℕ) (m : Queue.QueueBackpressureMonitor)
      → Step m (Queue.record_snapshot_apply_duration duration m)
  put :
      (duration : ℕ) (blocked : Bool) (m : Queue.QueueBackpressureMonitor)
      → Step m (Queue.record_queue_put_duration duration blocked m)
  blocking :
      (count : ℕ) (m : Queue.QueueBackpressureMonitor)
      → Step m (Queue.record_snapshot_blocking_lag count m)
  drop_messages :
      (count : ℕ) (m : Queue.QueueBackpressureMonitor) → Step m (Queue.record_drop count m)

pub data Reach (m : Queue.QueueBackpressureMonitor) : Queue.QueueBackpressureMonitor → Type 0 where
  here : Reach m m
  next : {n k : Queue.QueueBackpressureMonitor} → Reach m n → Step n k → Reach m k

init-IsConsistent : (l : Queue.Limits) → IsConsistent (Queue.init l)
unfolding Queue.init
init-IsConsistent l = record {
  total = refl;
  dropped = omega arith;
  depths = (omega arith, tt);
  lags = (omega arith, tt);
  processing = (omega arith, tt);
  requests = omega arith;
  applies = omega arith;
  puts = omega arith;
}

with_size-IsConsistent :
    (size : Option ℕ) (m : Queue.QueueBackpressureMonitor)
    → IsConsistent m
    → IsConsistent (Queue.with_size size m)
with_size-IsConsistent none m h = h
with_size-IsConsistent (some size) m h = record {
  total = h.total;
  dropped = h.dropped;
  depths = h.depths;
  lags = h.lags;
  processing = h.processing;
  requests = h.requests;
  applies = h.applies;
  puts = h.puts;
}

with_done-IsConsistent :
    (dequeued : ℕ) (done : Option ℕ) (m : Queue.QueueBackpressureMonitor)
    → IsConsistent m
    → IsConsistent (Queue.with_done dequeued done m)
with_done-IsConsistent dequeued none m h = h
with_done-IsConsistent dequeued (some done) m h = processed-IsConsistent m h dequeued done

lagged-IsConsistent :
    (lag : ℕ) (m : Queue.QueueBackpressureMonitor)
    → IsConsistent m
    → IsConsistent (record m {
      enqueue_to_dequeue_lag_ns_max = max m.enqueue_to_dequeue_lag_ns_max lag;
      lag_samples = Queue.push m.sample_capacity lag m.lag_samples;
    })
lagged-IsConsistent lag m h = record {
  total = h.total;
  dropped = h.dropped;
  depths = h.depths;
  lags = push-Within m.sample_capacity m.enqueue_to_dequeue_lag_ns_max lag m.lag_samples h.lags;
  processing = h.processing;
  requests = h.requests;
  applies = h.applies;
  puts = h.puts;
}

pub Step-IsConsistent :
    {m n : Queue.QueueBackpressureMonitor} → Step m n → IsConsistent m → IsConsistent n
unfolding Queue.record_enqueue Queue.record_dequeue Queue.record_snapshot_apply_duration
    Queue.record_queue_put_duration Queue.record_snapshot_blocking_lag Queue.record_drop
Step-IsConsistent (enqueue now size m) h = size-IsConsistent m h size
Step-IsConsistent (dequeue enqueued dequeued done size m) h =
    lag-IsConsistent _
      (with_done-IsConsistent dequeued done _
        (lagged-IsConsistent (dequeued - enqueued) _ (with_size-IsConsistent size m h)))
      (dequeued - enqueued)
Step-IsConsistent (processed dequeued done m) h = processed-IsConsistent m h dequeued done
Step-IsConsistent (requested duration m) h = requested-IsConsistent m h duration
Step-IsConsistent (applied duration m) h = record {
  total = h.total;
  dropped = h.dropped;
  depths = h.depths;
  lags = h.lags;
  processing = h.processing;
  requests = h.requests;
  applies = length-push m.sample_capacity duration m.snapshot_apply_duration_samples;
  puts = h.puts;
}
Step-IsConsistent (put duration blocked m) h = record {
  total = h.total;
  dropped = h.dropped;
  depths = h.depths;
  lags = h.lags;
  processing = h.processing;
  requests = h.requests;
  applies = h.applies;
  puts = length-push m.sample_capacity duration m.queue_put_block_samples;
}
Step-IsConsistent (blocking count m) h = record {
  total = refl;
  dropped = h.dropped;
  depths = h.depths;
  lags = h.lags;
  processing = h.processing;
  requests = h.requests;
  applies = h.applies;
  puts = h.puts;
}
Step-IsConsistent (drop_messages count m) h = record {
  total = refl;
  dropped = omega (arith, h.dropped);
  depths = h.depths;
  lags = h.lags;
  processing = h.processing;
  requests = h.requests;
  applies = h.applies;
  puts = h.puts;
}

-- After any calls on a new monitor, the total of backpressure events is the sum of the four kinds,
-- dropped messages are among the size events, no series of samples has more than its capacity, and
-- the maximal depth, lag and processing lag are above all samples kept of their kind.
pub Reach-IsConsistent :
    (l : Queue.Limits) {m : Queue.QueueBackpressureMonitor}
    → Reach (Queue.init l) m
    → IsConsistent m
Reach-IsConsistent l here = init-IsConsistent l
Reach-IsConsistent l (next r s) = Step-IsConsistent s (Reach-IsConsistent l r)

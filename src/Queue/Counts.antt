-- ===== src/Queue/Counts.antt =====
-- The counters of the queue monitor.
use somethingtrade.Prelude.{
  ℕ, zero, suc, ◌+◌, ◌-◌, ◌≤◌, ◌≡◌, refl, max, List, [], ◌∷◌, ◌++◌, arith, length, drop,
  length-append, Bool-cases, All, All-append, All-map, ltb, inl, inr,
}
use somethingtrade.Queue

length-drop : (n : ℕ) (l : List ℕ) → length (drop n l) ≡ length l - n
length-drop zero l = omega arith
length-drop (suc n) [] = omega arith
length-drop (suc n) (x ∷ l) = omega (arith, length-drop n l)

pub length-push : (cap x : ℕ) (l : List ℕ) → length (Queue.push cap x l) ≤ cap
unfolding Queue.push
length-push cap x l =
    omega (arith, length-drop (length l + 1 - cap) (l ++ x ∷ []), length-append {0} l (x ∷ []))

-- No more samples than the capacity, and none above the maximum.
abbrev pub Within : ℕ → ℕ → List ℕ → Type 0
Within cap top l = (length l ≤ cap) × All (λ x. x ≤ top) l

All-drop : (P : ℕ → Type 0) (n : ℕ) (l : List ℕ) → All P l → All P (drop n l)
All-drop P zero l h = h
All-drop P (suc n) [] h = tt
All-drop P (suc n) (x ∷ l) h = All-drop P n l h.1

raise : (a b : ℕ) (l : List ℕ) → a ≤ b → All (λ x. x ≤ a) l → All (λ x. x ≤ b) l
raise a b l h = All-map (λ x. x ≤ a) (λ x. x ≤ b) (λ x k. omega arith) l

pub push-Within :
    (cap top x : ℕ) (l : List ℕ) → Within cap top l → Within cap (max top x) (Queue.push cap x l)
unfolding Queue.push
push-Within cap top x l h = (
  length-push cap x l,
  All-drop (λ y. y ≤ max top x) (length l + 1 - cap) (l ++ x ∷ [])
      (All-append (λ y. y ≤ max top x) l (x ∷ []) (raise top (max top x) l (omega arith) h.1)
        (omega arith, tt)),
)

-- The total is the sum of the four kinds of events, each series of samples keeps to the capacity,
-- and the kept maxima are above the depths, the lags and the processing lags of the series.
pub record IsConsistent (m : Queue.QueueBackpressureMonitor) : Type 0 where
  pub total :
      m.queue_backpressure_events
      ≡ m.queue_size_backpressure_events + m.queue_lag_backpressure_events
        + m.processing_lag_backpressure_events + m.snapshot_blocking_lag_events
  pub dropped : m.queue_dropped_messages ≤ m.queue_size_backpressure_events
  pub depths : Within m.sample_capacity m.queue_max_size m.queue_depth_samples
  pub lags : Within m.sample_capacity m.enqueue_to_dequeue_lag_ns_max m.lag_samples
  pub processing : Within m.sample_capacity m.max_processing_lag_ns m.processing_lag_samples
  pub requests : length m.snapshot_request_duration_samples ≤ m.sample_capacity
  pub applies : length m.snapshot_apply_duration_samples ≤ m.sample_capacity
  pub puts : length m.queue_put_block_samples ≤ m.sample_capacity

module _ (m : Queue.QueueBackpressureMonitor) (h : IsConsistent m) where
  open h use {total, dropped, depths, lags, processing, requests, applies, puts}

  pub size-IsConsistent : (size : ℕ) → IsConsistent (Queue.record_size size m)
  unfolding Queue.record_size
  size-IsConsistent size =
      let pushed =
        push-Within m.sample_capacity m.queue_max_size size m.queue_depth_samples depths in
      elim (Bool-cases
        (Queue.backpressured m.capacity m.ratio_numerator m.ratio_denominator size)) [
          | inl over ↦ rw over (record {
            total = refl;
            dropped = omega arith;
            depths = pushed;
            lags = lags;
            processing = processing;
            requests = requests;
            applies = applies;
            puts = puts;
          })
          | inr under ↦ rw under (record {
            total = total;
            dropped = dropped;
            depths = pushed;
            lags = lags;
            processing = processing;
            requests = requests;
            applies = applies;
            puts = puts;
          })
        ]

  pub processed-IsConsistent :
      (dequeued done : ℕ) → IsConsistent (Queue.record_processing_done dequeued done m).0
  unfolding Queue.record_processing_done
  processed-IsConsistent dequeued done =
      let lag = done - dequeued in
      let pushed =
        push-Within m.sample_capacity m.max_processing_lag_ns lag m.processing_lag_samples
          processing in
      elim (Bool-cases (ltb m.processing_lag_severe_ns lag)) [
        | inl severe ↦ rw severe (record {
          total = refl;
          dropped = dropped;
          depths = depths;
          lags = lags;
          processing = pushed;
          requests = requests;
          applies = applies;
          puts = puts;
        })
        | inr mild ↦ rw mild (record {
          total = total;
          dropped = dropped;
          depths = depths;
          lags = lags;
          processing = pushed;
          requests = requests;
          applies = applies;
          puts = puts;
        })
      ]

  pub lag-IsConsistent : (lag : ℕ) → IsConsistent (Queue.count_lag lag m)
  unfolding Queue.count_lag Queue.refresh_backpressure_total
  lag-IsConsistent lag = elim (Bool-cases (ltb m.severe_lag_ns lag)) [
    | inl severe ↦ rw severe (record {
      total = refl;
      dropped = dropped;
      depths = depths;
      lags = lags;
      processing = processing;
      requests = requests;
      applies = applies;
      puts = puts;
    })
    | inr mild ↦ rw mild h
  ]

  pub requested-IsConsistent :
      (duration : ℕ) → IsConsistent (Queue.record_snapshot_request_duration duration m)
  unfolding Queue.record_snapshot_request_duration
  requested-IsConsistent duration =
      let pushed = length-push m.sample_capacity duration m.snapshot_request_duration_samples in
      elim (Bool-cases (ltb m.snapshot_blocking_lag_ns duration)) [
        | inl severe ↦ rw severe (record {
          total = refl;
          dropped = dropped;
          depths = depths;
          lags = lags;
          processing = processing;
          requests = pushed;
          applies = applies;
          puts = puts;
        })
        | inr mild ↦ rw mild (record {
          total = total;
          dropped = dropped;
          depths = depths;
          lags = lags;
          processing = processing;
          requests = pushed;
          applies = applies;
          puts = puts;
        })
      ]

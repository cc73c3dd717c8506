-- ===== src/Queue/Tests.antt =====
-- The queue monitor on small inputs.
use somethingtrade.Prelude.{ℕ, some, List, [], ◌∷◌}
use somethingtrade.Queue.{Limits, QueueBackpressureMonitor, init, record_enqueue, record_drop}
use somethingtrade.Queue.Counts.{IsConsistent}
use somethingtrade.Queue.Reach.{here, next, enqueue, drop_messages, Reach-IsConsistent}

abbrev limits : Limits
limits = record {
  capacity = some 10;
  ratio_numerator = 8;
  ratio_denominator = 10;
  severe_lag_ns = 100;
  processing_lag_severe_ns = 100;
  snapshot_blocking_lag_ns = 100;
  sample_capacity = 2;
}

abbrev filled : QueueBackpressureMonitor
filled = (record_enqueue tt 5 9 (init limits)).0

Reach-IsConsistent_example : IsConsistent (record_drop 3 filled)
Reach-IsConsistent_example =
    Reach-IsConsistent limits
      (next (next here (enqueue 5 9 (init limits))) (drop_messages 3 filled))

abbrev samples : List ℕ
samples = 1 ∷ 4 ∷ 9 ∷ []

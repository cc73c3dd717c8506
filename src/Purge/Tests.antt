-- ===== src/Purge/Tests.antt =====
-- The purge of a small queue.
use somethingtrade.Prelude.{
  All, ◌++◌, ◌+◌, ◌≡◌, refl, false, none, inr, List, [], ◌∷◌, arith, length,
}
use somethingtrade.Orderbook.Types.{DeltaMessage}
use somethingtrade.Orderbook.Levels.{
  parse_levels, parse_row, raw_level, parse_price, parse_size, decimal_or_none,
}
use somethingtrade.Orderbook.WellFormed.{init-IsWellFormed}
use somethingtrade.Orderbook.Feed.{Deltas, AllAccepted}
use somethingtrade.Orderbook.Tests.{
  clocks, fresh, bridge, follow, with_snapshot, snapshot_message, delta_message, runs,
}
use somethingtrade.Queue.{init}
use somethingtrade.Lifecycle.{new_tracker}
use somethingtrade.Purge.{
  Envelope, Payload, depth, other, PurgeTarget, PostSnapshotQueuePurgeResult,
  purge_queued_depth_updates_after_snapshot, purge_queue_after_snapshot, own, purge_loop, visit_own,
  result_of,
}
use somethingtrade.Purge.Bridge.{kept, own_updates}
use somethingtrade.Purge.Split.{
  count_old, count_new, others, not_old, IsNoBridge, StartsAtBridge, is_some_envelope,
}
use somethingtrade.Purge.Parted.{purge-parted}
use somethingtrade.Purge.Requeue.{
  taken, purge_queue_after_snapshot_lem, purge_queue_after_snapshot-lossless,
}
use somethingtrade.Purge.Resume.{AllPlain, purge_resume}

abbrev envelope : Payload → Envelope
envelope payload = record {
  payload = payload;
  enqueue_monotonic_ns = 1;
  queue_size_at_enqueue = 0;
  queue_put_end_monotonic_ns = none;
}

abbrev update : DeltaMessage → Envelope
update d = envelope (depth (record { symbol = "BTCUSDT"; update = d }))

-- An old update, another payload, and two updates that continue a snapshot with id 10.
abbrev drained : List Envelope
drained = update (delta_message 3 4 []) ∷ envelope other ∷ update bridge ∷ update follow ∷ []

abbrev future : List Envelope
future = update (delta_message 20 21 []) ∷ []

abbrev target : List Envelope → PurgeTarget
target queue = record {
  queue = queue;
  monitor = init (record {
    capacity = none;
    ratio_numerator = 8;
    ratio_denominator = 10;
    severe_lag_ns = 100;
    processing_lag_severe_ns = 100;
    snapshot_blocking_lag_ns = 100;
    sample_capacity = 2;
  });
  lifecycle = new_tracker;
  state = with_snapshot;
  bridge_missing_after_snapshot_count = 0;
}

abbrev purged : PostSnapshotQueuePurgeResult × List Envelope
purged = purge_queued_depth_updates_after_snapshot "BTCUSDT" 10 drained

purge-parted_example :
    (before after : List Envelope) × (drained ≡ before ++ after)
    × All (IsNoBridge "BTCUSDT" 10) before
    × StartsAtBridge "BTCUSDT" 10 after
    × (purged.1 ≡ others "BTCUSDT" before ++ not_old "BTCUSDT" 10 after)
    × (purged.0.old_events_dropped ≡ count_old 10 (own_updates "BTCUSDT" drained))
    × (purged.0.future_events_dropped ≡ count_new 10 (own_updates "BTCUSDT" before))
    × (purged.0.bridge_candidate_found ≡ is_some_envelope after)
    × (purged.0.queue_size_before ≡ 4)
    × (purged.0.events_preserved_count ≡ length purged.1)
    × (purged.0.queue_size_after ≡ length purged.1)
purge-parted_example = purge-parted "BTCUSDT" 10 drained

-- One update is old, none is after a gap, and the other payload, the bridge and its successor are kept.
purged-counts :
    (purged.0.old_events_dropped ≡ 1) × (purged.0.future_events_dropped ≡ 0) × (length purged.1 ≡ 3)
unfolding purge_queued_depth_updates_after_snapshot purge_loop visit_own own result_of
purged-counts = (refl, refl, refl)

abbrev after : PostSnapshotQueuePurgeResult × PurgeTarget
after = purge_queue_after_snapshot clocks 2 "BTCUSDT" 10 (target drained)

purge_queue_after_snapshot_lem_example :
    (after.1.queue ≡ taken 2 [] purged.1)
    × (after.0.events_preserved_count ≡ length after.1.queue)
    × (after.0.queue_size_after ≡ length after.1.queue)
    × (after.1.monitor.queue_dropped_messages + length after.1.queue
        ≡ (target drained).monitor.queue_dropped_messages + length purged.1)
purge_queue_after_snapshot_lem_example =
    purge_queue_after_snapshot_lem clocks 2 "BTCUSDT" 10 (target drained)

purge_queue_after_snapshot-lossless_example :
    (purge_queue_after_snapshot clocks 4 "BTCUSDT" 10 (target drained)).1.queue
    ≡ kept "BTCUSDT" 10 false drained
purge_queue_after_snapshot-lossless_example =
    purge_queue_after_snapshot-lossless clocks 4 "BTCUSDT" 10 (target drained) (inr (omega arith))

abbrev without : PostSnapshotQueuePurgeResult × PurgeTarget
without = purge_queue_after_snapshot clocks 4 "BTCUSDT" 10 (target future)

abbrev deltas : Deltas
deltas = (clocks, bridge) ∷ (clocks, follow) ∷ []

left : (bridge ∷ follow ∷ []) ≡ own_updates "BTCUSDT" purged.1
unfolding own_updates purge_queued_depth_updates_after_snapshot purge_loop visit_own own result_of
left = refl

plain : AllPlain deltas
unfolding parse_levels parse_row raw_level parse_price parse_size decimal_or_none
plain = ((refl, refl, refl), ((refl, refl, refl), tt))

purge_resume_example : AllAccepted deltas with_snapshot
purge_resume_example =
    purge_resume clocks snapshot_message fresh "BTCUSDT" drained deltas
      (init-IsWellFormed clocks "BTCUSDT" 0) runs.0 left (refl, omega arith, tt) plain

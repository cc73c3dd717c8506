-- ===== src/Purge.antt =====
-- `purge_queued_depth_updates_after_snapshot` and the drain and requeue of
-- `purge_queue_after_snapshot`, of bot/app/marketdata/orderbook_phase41.py. A symbol is the text
-- that `.upper()` makes of it.
pub mod Bridge
pub mod Split
pub mod Parted
pub mod Requeue
pub mod Resume
mod Tests
use somethingtrade.Prelude.{
  ℕ, zero, suc, ◌+◌, ◌-◌, String, str_eq, Bool, true, false, not, ◌&&◌, Option, none, some, List,
  [], ◌∷◌, ◌++◌, leb, ltb, ◌==◌, if◌then◌else◌, length,
}
use somethingtrade.Queue.{QueueEnvelope, QueueBackpressureMonitor, record_drop}
use somethingtrade.Orderbook.Types.{DeltaMessage, OrderbookState, Clocks, NotReadyReason}
use somethingtrade.Orderbook.State.{mark_not_ready}
use somethingtrade.Lifecycle.{WsLifecycleTracker, on_queue_dropped, observe_ready_false}

-- `DepthUpdate`, with what the purge and `apply_delta` read of it.
pub record DepthUpdate : Type 0 where
  pub symbol : String
  pub update : DeltaMessage

-- The payload of an envelope: a depth update, or anything else.
pub data Payload : Type 0 where
  depth : DepthUpdate → Payload
  other : Payload

abbrev pub Envelope : Type 0
Envelope = QueueEnvelope Payload

pub record PostSnapshotQueuePurgeResult : Type 0 where
  pub symbol : String
  pub snapshot_last_update_id : ℕ
  pub queue_size_before : ℕ
  pub old_events_dropped : ℕ
  pub bridge_candidate_found : Bool
  pub bridge_first_update_id : Option ℕ
  pub bridge_final_update_id : Option ℕ
  pub events_preserved_count : ℕ
  pub queue_size_after : ℕ
  pub bridge_missing_after_snapshot : Bool
  pub future_events_dropped : ℕ

-- The variables of the loop.
pub record Purge : Type 0 where
  pub preserved : List Envelope
  pub old_events_dropped : ℕ
  pub future_events_dropped : ℕ
  pub bridge_candidate_found : Bool
  pub bridge_first_update_id : Option ℕ
  pub bridge_final_update_id : Option ℕ

abbrev pub start : Purge
start = record {
  preserved = [];
  old_events_dropped = 0;
  future_events_dropped = 0;
  bridge_candidate_found = false;
  bridge_first_update_id = none;
  bridge_final_update_id = none;
}

-- The update of an envelope that the purge looks at: a depth update of the symbol.
abbrev own_payload : String → Payload → Option DeltaMessage
own_payload symbol (depth d) = if str_eq d.symbol symbol then some d.update else none
own_payload symbol other = none

pub own : String → Envelope → Option DeltaMessage
own symbol e = own_payload symbol e.payload

abbrev keep : Envelope → Purge → Purge
keep e p = record p { preserved = p.preserved ++ e ∷ [] }

-- The update ends after the snapshot and spans the first id after it.
abbrev pub is_bridge : ℕ → DeltaMessage → Bool
is_bridge id d = leb d.first_update_id (id + 1) && leb (id + 1) d.final_update_id

-- One round of the loop, with the envelope's own update, if it has one.
visit_own : ℕ → Envelope → DeltaMessage → Purge → Purge
visit_own id e d p =
    if leb d.final_update_id id
    then record p { old_events_dropped = p.old_events_dropped + 1 }
    else if p.bridge_candidate_found
    then keep e p
    else if is_bridge id d
    then record p {
      preserved = p.preserved ++ e ∷ [];
      bridge_candidate_found = true;
      bridge_first_update_id = some d.first_update_id;
      bridge_final_update_id = some d.final_update_id;
    }
    else record p { future_events_dropped = p.future_events_dropped + 1 }

abbrev visit : ℕ → Envelope → Option DeltaMessage → Purge → Purge
visit id e none p = keep e p
visit id e (some d) p = visit_own id e d p

pub purge_loop : String → ℕ → List Envelope → Purge → Purge
unfolding visit_own
purge_loop symbol id [] p = p
purge_loop symbol id (e ∷ es) p = purge_loop symbol id es (visit id e (own symbol e) p)

result_of : String → ℕ → List Envelope → Purge → PostSnapshotQueuePurgeResult
result_of symbol id drained p = record {
  symbol = symbol;
  snapshot_last_update_id = id;
  queue_size_before = length drained;
  old_events_dropped = p.old_events_dropped;
  bridge_candidate_found = p.bridge_candidate_found;
  bridge_first_update_id = p.bridge_first_update_id;
  bridge_final_update_id = p.bridge_final_update_id;
  events_preserved_count = length p.preserved;
  queue_size_after = length p.preserved;
  bridge_missing_after_snapshot =
      not (p.future_events_dropped == 0) && not p.bridge_candidate_found;
  future_events_dropped = p.future_events_dropped;
}

pub purge_queued_depth_updates_after_snapshot :
    String → ℕ → List Envelope → PostSnapshotQueuePurgeResult × List Envelope
unfolding result_of
purge_queued_depth_updates_after_snapshot symbol id drained =
    let p = purge_loop symbol id drained start in (result_of symbol id drained p, p.preserved)

-- What the queue, the monitor and the count of lost envelopes are.
pub record Requeued : Type 0 where
  pub queue : List Envelope
  pub monitor : QueueBackpressureMonitor
  pub lifecycle : WsLifecycleTracker
  pub dropped_on_requeue : ℕ

-- A queue is full at its bound; a bound of zero is none.
abbrev pub is_full : ℕ → List Envelope → Bool
is_full bound queue = not (bound == 0) && leb bound (length queue)

-- One `put_nowait`, with its `QueueFull`.
put_nowait : ℕ → Envelope → Requeued → Requeued
put_nowait bound e r =
    if is_full bound r.queue
    then record r {
      monitor = record_drop 1 r.monitor;
      lifecycle = on_queue_dropped 1 r.lifecycle;
      dropped_on_requeue = r.dropped_on_requeue + 1;
    }
    else record r { queue = r.queue ++ e ∷ [] }

pub requeue : ℕ → List Envelope → Requeued → Requeued
unfolding put_nowait
requeue bound [] r = r
requeue bound (e ∷ es) r = requeue bound es (put_nowait bound e r)

-- The counts are mended for the envelopes that did not fit.
mended : ℕ → PostSnapshotQueuePurgeResult → PostSnapshotQueuePurgeResult
mended lost result = if lost == 0 then result else record result {
  events_preserved_count = result.events_preserved_count - lost;
  queue_size_after = result.queue_size_after - lost;
}

-- The parts of the processor that `purge_queue_after_snapshot` reads and changes: the queue, its
-- monitor, the lifecycle counters, the symbol's state, and one counter.
pub record PurgeTarget : Type 0 where
  pub queue : List Envelope
  pub monitor : QueueBackpressureMonitor
  pub lifecycle : WsLifecycleTracker
  pub state : OrderbookState
  pub bridge_missing_after_snapshot_count : ℕ

abbrev pub fail_without_bridge : Clocks → PurgeTarget → PurgeTarget
fail_without_bridge clocks t =
    let s =
      mark_not_ready clocks NotReadyReason.bridge_missing_after_snapshot
        (some clocks.monotonic_now_ns) true none t.state in
    record t {
      state = s;
      lifecycle = observe_ready_false s t.lifecycle;
      bridge_missing_after_snapshot_count = t.bridge_missing_after_snapshot_count + 1;
    }

-- The queue is drained, purged and filled again; without a bridge the state is not ready any more.
pub purge_queue_after_snapshot :
    Clocks → ℕ → String → ℕ → PurgeTarget → PostSnapshotQueuePurgeResult × PurgeTarget
unfolding mended
purge_queue_after_snapshot clocks bound symbol id t =
    let (result, preserved) = purge_queued_depth_updates_after_snapshot symbol id t.queue in
    let r = requeue bound preserved (record {
      queue = [];
      monitor = t.monitor;
      lifecycle = t.lifecycle;
      dropped_on_requeue = 0;
    }) in
    let t' = record t { queue = r.queue; monitor = r.monitor; lifecycle = r.lifecycle } in
    (
      mended r.dropped_on_requeue result,
      if result.bridge_missing_after_snapshot then fail_without_bridge clocks t' else t',
    )

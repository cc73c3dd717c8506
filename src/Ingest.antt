-- ===== src/Ingest.antt =====
-- `load_snapshot`, and of `process_depth_update` what leads to the verdict on a delta and what is
-- counted of it, of bot/app/marketdata/orderbook_phase41.py, for one symbol. The sample that an
-- accepted delta leads to is in Emission; the samples of copy times and the debug recorder are left out.
pub mod Account
pub mod Load
mod Tests
use somethingtrade.Prelude.{
  ℕ, ◌+◌, Bool, true, false, not, Option, none, some, List, [], ◌∷◌, ltb, leb, ◌&&◌, if◌then◌else◌,
  or_number,
}
use somethingtrade.Orderbook.Types.{
  OrderbookState, OrderbookApplyResult, Clocks, SnapshotMessage, DeltaMessage, Status,
}
use somethingtrade.Orderbook.State.{record_message_recv}
use somethingtrade.Orderbook.Updates.{apply_snapshot, apply_delta}
use somethingtrade.Lifecycle.{
  WsLifecycleTracker, on_snapshot_loaded, on_snapshot_failed, on_delta_before_snapshot,
  on_duplicate, on_sequence_gap, on_message_before_ready, observe_ready_false,
}
use somethingtrade.Stale.{Limits, Feed, Watch, close_stale_period}
use somethingtrade.Stale.Check.{Check, check_feed}

-- What the processor keeps for one symbol, and the counters that these methods touch.
pub record Session : Type 0 where
  pub feed : Feed
  pub watch : Watch
  pub messages_received : ℕ
  pub messages_parsed : ℕ
  pub deltas_accepted : ℕ
  pub deltas_rejected : ℕ
  pub first_delta_bridge_failed_count : ℕ
  pub previous_final_update_id_mismatch_count : ℕ
  pub ready_to_emit_disabled_count : ℕ
  pub invalid_delta_count : ℕ
  pub post_snapshot_trace_count : ℕ
  pub updates_processed_since_snapshot : ℕ
  pub last_snapshot_last_update_id : Option ℕ

-- The time of the snapshot: a given one, or the clock.
abbrev pub apply_time : Clocks → Option ℕ → Option ℕ → ℕ
apply_time clocks (some t) recv = t
apply_time clocks none (some t) = t
apply_time clocks none none = clocks.monotonic_now_ns

-- `_close_stale_period` with a time that may be missing: the period is forgotten all the same.
abbrev pub close_at : Option ℕ → Feed → Watch → Feed × Watch
close_at none f w = (record f { open_stale_period = none }, w)
close_at (some now) f w = close_stale_period now f w

abbrev with_lifecycle : (WsLifecycleTracker → WsLifecycleTracker) → Watch → Watch
with_lifecycle g w = record w { lifecycle = g w.lifecycle }

abbrev pub observe : Session → Session
observe s = record s { watch = with_lifecycle (observe_ready_false s.feed.state) s.watch }

-- The bookkeeping of a snapshot that is accepted.
snapshot_loaded : ℕ → Session → Session
snapshot_loaded id s =
    let w = with_lifecycle on_snapshot_loaded s.watch in
    let (f, w') = close_at s.feed.state.last_book_update_monotonic_ns s.feed w in
    record s {
      feed = f;
      watch = w';
      post_snapshot_trace_count = 0;
      updates_processed_since_snapshot = 0;
      last_snapshot_last_update_id = some id;
    }

snapshot_failed : Session → Session
snapshot_failed s = record s { watch = with_lifecycle on_snapshot_failed s.watch }

-- The message as `load_snapshot` passes it on.
abbrev pub timed : Clocks → Option ℕ → Option ℕ → SnapshotMessage → SnapshotMessage
timed clocks apply recv m = record m {
  local_recv_monotonic_ns = apply_time clocks apply recv;
  local_recv_wall_ts = some clocks.utc_iso_now;
}

pub load_snapshot :
    Clocks → Option ℕ → Option ℕ → SnapshotMessage → Session → Session × OrderbookApplyResult
unfolding snapshot_loaded snapshot_failed
load_snapshot clocks apply recv m s =
    let (state, result) = apply_snapshot clocks (timed clocks apply recv m) s.feed.state in
    let s' = record s { feed = record s.feed { state = state } } in
    (
      observe (if result.accepted then snapshot_loaded m.last_update_id s' else snapshot_failed s'),
      result,
    )

-- The counters of a rejected delta, by its status.
count_rejected : Status → Session → Session
count_rejected Status.delta_before_snapshot s = record s {
  watch = with_lifecycle on_delta_before_snapshot s.watch;
}
count_rejected Status.duplicate_update s = record s { watch = with_lifecycle on_duplicate s.watch }
count_rejected Status.sequence_gap_or_reset s = record s {
  watch = with_lifecycle on_sequence_gap s.watch;
}
count_rejected Status.sequence_bridge_failed s = record s {
  first_delta_bridge_failed_count = s.first_delta_bridge_failed_count + 1;
  watch = with_lifecycle on_sequence_gap s.watch;
}
count_rejected Status.previous_final_update_id_mismatch s = record s {
  previous_final_update_id_mismatch_count = s.previous_final_update_id_mismatch_count + 1;
  ready_to_emit_disabled_count = s.ready_to_emit_disabled_count + 1;
}
count_rejected Status.invalid_delta_levels s = record s {
  invalid_delta_count = s.invalid_delta_count + 1;
  ready_to_emit_disabled_count = s.ready_to_emit_disabled_count + 1;
}
count_rejected status s = record s { watch = with_lifecycle on_message_before_ready s.watch }

-- The counters of a delta, accepted or not.
count_result : ℕ → OrderbookApplyResult → Session → Session
unfolding count_rejected
count_result recv result s =
    if result.accepted
    then (let (f, w) = close_stale_period recv s.feed s.watch in
        record s { feed = f; watch = w; deltas_accepted = s.deltas_accepted + 1 })
    else count_rejected result.status (record s { deltas_rejected = s.deltas_rejected + 1 })

-- Up to twenty updates after a snapshot are traced.
abbrev pub note_update_range : Session → Session
note_update_range s =
    if leb (s.post_snapshot_trace_count + 1) 20
    then record s { post_snapshot_trace_count = s.post_snapshot_trace_count + 1 }
    else s

-- The receipt of a message: it counts, is noted, and the feed is checked, before the delta is
-- applied. The delta's own receive time is the time of the receipt.
pub receive_delta : Limits → Clocks → DeltaMessage → Session → Session × OrderbookApplyResult
receive_delta limits clocks d s =
    let now = d.local_recv_monotonic_ns in
    let f = record s.feed {
      state = record_message_recv now s.feed.state;
      last_ws_message_recv_monotonic_ns = some now;
    } in
    let c : Check = record { now_monotonic_ns = now; active = true; queue_size = 0 } in
    let (f', w, period) = check_feed limits clocks c f s.watch in
    let (state, result) = apply_delta clocks d f'.state in
    (
      record s {
        feed = record f' { state = state };
        watch = w;
        messages_received = s.messages_received + 1;
        messages_parsed = s.messages_parsed + 1;
      },
      result,
    )

-- The end of `process_depth_update`.
abbrev pub finish : Session → Session
finish s =
    let s' = record s {
      updates_processed_since_snapshot = s.updates_processed_since_snapshot + 1;
    } in
    if s'.feed.state.ready_to_emit then s' else observe s'

pub process_delta : Limits → Clocks → DeltaMessage → Session → Session × OrderbookApplyResult
unfolding receive_delta count_result
process_delta limits clocks d s =
    let (s', result) = receive_delta limits clocks d s in
    (finish (note_update_range (count_result d.local_recv_monotonic_ns result s')), result)

pub data Classification : Type 0 where
  bridge_accepted expected_accepted old_dropped duplicate_skipped : Classification
  gap_detected invalid_fail_closed : Classification
  status_of : Status → Classification

-- The final id lies before the last one.
abbrev pub is_old : Option ℕ → Option ℕ → Bool
is_old (some last) (some final) = ltb final last
is_old (some last) none = false
is_old none final = false

abbrev pub rejected_as : OrderbookApplyResult → Status → Classification
rejected_as result Status.duplicate_update =
    if is_old result.previous_last_update_id result.final_update_id
    then old_dropped
    else duplicate_skipped
rejected_as result Status.sequence_gap_or_reset = gap_detected
rejected_as result Status.sequence_bridge_failed = gap_detected
rejected_as result Status.previous_final_update_id_mismatch = gap_detected
rejected_as result Status.invalid_delta_levels = invalid_fail_closed
rejected_as result status = status_of status

-- `_sequence_trace_classification`
pub sequence_trace_classification : OrderbookApplyResult → Bool → Classification
sequence_trace_classification result awaiting_bridge_before =
    if result.accepted
    then if awaiting_bridge_before then bridge_accepted else expected_accepted
    else rejected_as result result.status

-- ===== src/Lifecycle.antt =====
-- bot/app/marketdata/ws_lifecycle.py: the counters of a feed's life, and what a reconnect does to a
-- state. Each counter is a field, for the names of LIFECYCLE_COUNTER_FIELDS. Durations are
-- nanoseconds.
pub mod Counts
pub mod Resets
mod Tests
use somethingtrade.Prelude.{
  ℕ, ◌+◌, ◌-◌, String, str_eq, Option, none, some, List, [], ◌∷◌, ltb, if◌then◌else◌, true,
}
use somethingtrade.Orderbook.Types.{OrderbookState, Clocks, NotReadyReason}
use somethingtrade.Orderbook.State.{mark_not_ready}

pub record WsLifecycleTracker : Type 0 where
  pub connect_count : ℕ
  pub disconnect_count : ℕ
  pub reconnect_count : ℕ
  pub resubscribe_count : ℕ
  pub snapshot_loaded_count : ℕ
  pub snapshot_refresh_count : ℕ
  pub snapshot_failed_count : ℕ
  pub delta_before_snapshot_count : ℕ
  pub messages_before_ready_count : ℕ
  pub state_reset_count : ℕ
  pub sequence_gap_count : ℕ
  pub duplicate_messages_detected : ℕ
  pub duplicate_messages_skipped : ℕ
  pub queue_backpressure_events : ℕ
  pub queue_dropped_messages : ℕ
  pub sample_blocked_by_ready_guard : ℕ
  pub ready_to_emit_false_warning_count : ℕ
  pub ready_to_emit_false_duration_ns_max : ℕ
  pub symbol_ready_false_warnings : List (String × ℕ)

pub new_tracker : WsLifecycleTracker
new_tracker = record {
  connect_count = 0;
  disconnect_count = 0;
  reconnect_count = 0;
  resubscribe_count = 0;
  snapshot_loaded_count = 0;
  snapshot_refresh_count = 0;
  snapshot_failed_count = 0;
  delta_before_snapshot_count = 0;
  messages_before_ready_count = 0;
  state_reset_count = 0;
  sequence_gap_count = 0;
  duplicate_messages_detected = 0;
  duplicate_messages_skipped = 0;
  queue_backpressure_events = 0;
  queue_dropped_messages = 0;
  sample_blocked_by_ready_guard = 0;
  ready_to_emit_false_warning_count = 0;
  ready_to_emit_false_duration_ns_max = 0;
  symbol_ready_false_warnings = [];
}

pub on_connect : WsLifecycleTracker → WsLifecycleTracker
on_connect t = record t { connect_count = t.connect_count + 1 }

pub on_disconnect : WsLifecycleTracker → WsLifecycleTracker
on_disconnect t = record t { disconnect_count = t.disconnect_count + 1 }

-- A given state is marked not ready, with the default arguments, and the reset is counted.
reset :
    Clocks
    → NotReadyReason
    → Option OrderbookState
    → WsLifecycleTracker
    → WsLifecycleTracker × Option OrderbookState
reset clocks reason none t = (t, none)
reset clocks reason (some s) t = (
  record t { state_reset_count = t.state_reset_count + 1 },
  some (mark_not_ready clocks reason none true none s),
)

pub on_reconnect :
    Clocks → Option OrderbookState → WsLifecycleTracker → WsLifecycleTracker × Option OrderbookState
unfolding reset
on_reconnect clocks state t =
    reset clocks NotReadyReason.reconnect state
      (record t { reconnect_count = t.reconnect_count + 1 })

pub on_resubscribe :
    Clocks → Option OrderbookState → WsLifecycleTracker → WsLifecycleTracker × Option OrderbookState
unfolding reset
on_resubscribe clocks state t =
    reset clocks NotReadyReason.resubscribe state
      (record t { resubscribe_count = t.resubscribe_count + 1 })

unfoldable pub on_snapshot_loaded : WsLifecycleTracker → WsLifecycleTracker
on_snapshot_loaded t = record t { snapshot_loaded_count = t.snapshot_loaded_count + 1 }

pub on_snapshot_refresh : WsLifecycleTracker → WsLifecycleTracker
on_snapshot_refresh t = record t { snapshot_refresh_count = t.snapshot_refresh_count + 1 }

unfoldable pub on_snapshot_failed : WsLifecycleTracker → WsLifecycleTracker
on_snapshot_failed t = record t { snapshot_failed_count = t.snapshot_failed_count + 1 }

pub on_delta_before_snapshot : WsLifecycleTracker → WsLifecycleTracker
on_delta_before_snapshot t = record t {
  delta_before_snapshot_count = t.delta_before_snapshot_count + 1;
  messages_before_ready_count = t.messages_before_ready_count + 1;
}

pub on_message_before_ready : WsLifecycleTracker → WsLifecycleTracker
on_message_before_ready t = record t {
  messages_before_ready_count = t.messages_before_ready_count + 1;
}

pub on_sequence_gap : WsLifecycleTracker → WsLifecycleTracker
on_sequence_gap t = record t {
  sequence_gap_count = t.sequence_gap_count + 1;
  state_reset_count = t.state_reset_count + 1;
}

pub on_duplicate : WsLifecycleTracker → WsLifecycleTracker
on_duplicate t = record t {
  duplicate_messages_detected = t.duplicate_messages_detected + 1;
  duplicate_messages_skipped = t.duplicate_messages_skipped + 1;
}

pub on_queue_backpressure : ℕ → WsLifecycleTracker → WsLifecycleTracker
on_queue_backpressure count t = record t {
  queue_backpressure_events = t.queue_backpressure_events + count;
}

pub on_queue_dropped : ℕ → WsLifecycleTracker → WsLifecycleTracker
on_queue_dropped count t = record t { queue_dropped_messages = t.queue_dropped_messages + count }

pub on_sample_blocked_by_ready_guard : WsLifecycleTracker → WsLifecycleTracker
on_sample_blocked_by_ready_guard t = record t {
  sample_blocked_by_ready_guard = t.sample_blocked_by_ready_guard + 1;
}

-- `d.get(symbol, 0)` and `d[symbol] = n`, on the dictionary of warnings.
abbrev pub warnings_of : List (String × ℕ) → String → ℕ
warnings_of [] symbol = 0
warnings_of ((k, n) ∷ d) symbol = if str_eq k symbol then n else warnings_of d symbol

abbrev pub set_warnings : List (String × ℕ) → String → ℕ → List (String × ℕ)
set_warnings [] symbol n = (symbol, n) ∷ []
set_warnings ((k, old) ∷ d) symbol n =
    if str_eq k symbol then (k, n) ∷ d else (k, old) ∷ set_warnings d symbol n

-- The part on the warnings of the state's symbol.
observe_warnings : String → ℕ → WsLifecycleTracker → WsLifecycleTracker
observe_warnings symbol count t =
    let previous = warnings_of t.symbol_ready_false_warnings symbol in
    if ltb previous count
    then record t {
      ready_to_emit_false_warning_count = t.ready_to_emit_false_warning_count + (count - previous);
      symbol_ready_false_warnings = set_warnings t.symbol_ready_false_warnings symbol count;
    }
    else t

pub observe_ready_false : OrderbookState → WsLifecycleTracker → WsLifecycleTracker
unfolding observe_warnings
observe_ready_false s t = observe_warnings s.symbol s.ready_to_emit_false_warning_count (record t {
  ready_to_emit_false_duration_ns_max =
      if ltb t.ready_to_emit_false_duration_ns_max s.ready_to_emit_false_duration_ns_max
      then s.ready_to_emit_false_duration_ns_max
      else t.ready_to_emit_false_duration_ns_max;
})

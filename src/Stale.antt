-- ===== src/Stale.antt =====
-- `check_stale_periods` of bot/app/marketdata/orderbook_phase41.py and the methods it calls: the watch
-- over feeds that fall silent and over books that are not updated. Durations are nanoseconds.
--
-- What the processor keeps by symbol is a `Feed`, and the selected symbols are a list of feeds, each
-- symbol once. A stale period is one object that the open periods and the deque of periods share; it
-- has a number here, and a change of it is made in both places. The debug recorder is left out.
pub mod Check
pub mod Verdict
pub mod Silence
mod Tests
use somethingtrade.Prelude.{
  ℕ, ◌+◌, ◌-◌, String, str_eq, Bool, true, false, not, ◌&&◌, ◌||◌, Option, none, some, List, [],
  ◌∷◌, ◌++◌, map, ltb, ◌==◌, if◌then◌else◌, or_number, length, drop, max,
}
use somethingtrade.Prelude.Int.{ℤ, pos, negsuc, ltb_ℤ}
use somethingtrade.Orderbook.Types.{OrderbookState, Clocks, NotReadyReason}
use somethingtrade.Orderbook.State.{mark_not_ready, book_age_ns, is_none}
use somethingtrade.Queue.{QueueBackpressureMonitor, record_snapshot_blocking_lag}
use somethingtrade.Quality.{age_of, is_stale}
use somethingtrade.Lifecycle.{WsLifecycleTracker, observe_ready_false}

pub record Limits : Type 0 where
  pub stale_threshold_ns : ℕ
  pub feed_receive_stale_threshold_ns : ℕ

pub record StalePeriod : Type 0 where
  pub number : ℕ
  pub symbol : String
  pub stale_threshold_ns : ℕ
  pub started_monotonic_ns : ℕ
  pub ended_monotonic_ns : Option ℕ
  pub max_age_ns : ℤ
  pub snapshot_ready : Bool
  pub ready_to_emit : Bool
  pub last_book_update_monotonic_ns : Option ℕ
  pub last_message_recv_monotonic_ns : Option ℕ
  pub last_ws_message_recv_monotonic_ns : Option ℕ
  pub generation_id : ℕ

pub record ApplyStaleWarning : Type 0 where
  pub symbol : String
  pub observed_monotonic_ns : ℕ
  pub apply_age_ns : ℤ
  pub max_apply_age_ns : ℤ
  pub feed_receive_age_ns : Option ℤ
  pub queue_size : ℕ
  pub consecutive_checks : ℕ
  pub snapshot_ready : Bool
  pub ready_to_emit : Bool
  pub generation_id : ℕ

pub record PostCaptureWarning : Type 0 where
  pub symbol : String
  pub observed_monotonic_ns : ℕ
  pub age_ns : ℤ
  pub snapshot_ready : Bool
  pub ready_to_emit : Bool
  pub last_book_update_monotonic_ns : Option ℕ
  pub last_message_recv_monotonic_ns : Option ℕ
  pub generation_id : ℕ

-- What the processor keeps for one symbol.
pub record Feed : Type 0 where
  pub symbol : String
  pub state : OrderbookState
  pub last_ws_message_recv_monotonic_ns : Option ℕ
  pub open_stale_period : Option StalePeriod
  pub post_capture_warning : Bool
  pub processor_apply_stale : Bool
  pub processor_apply_stale_consecutive_checks : ℕ
  pub snapshot_recovery_active : Bool

-- What all symbols share.
pub record Watch : Type 0 where
  pub stale_periods : List StalePeriod
  pub processor_apply_stale_warnings : List ApplyStaleWarning
  pub post_capture_age_warnings : List PostCaptureWarning
  pub feed_receive_stale_count : ℕ
  pub active_feed_stale_count : ℕ
  pub stale_book_count : ℕ
  pub stale_reset_count : ℕ
  pub processor_apply_stale_count : ℕ
  pub max_book_age_ns : ℕ
  pub last_book_update_age_ns_at_report : Option ℤ
  pub queue_monitor : QueueBackpressureMonitor
  pub lifecycle : WsLifecycleTracker

-- `append` on a deque of at most 256 entries.
abbrev pub append_256 {ℓ} : {A : Type ℓ} → A → List A → List A
append_256 x l = drop (length l + 1 - 256) (l ++ x ∷ [])

abbrev pub max_ℤ : ℤ → ℤ → ℤ
max_ℤ a b = if ltb_ℤ a b then b else a

-- The period takes the place of the one with its number.
abbrev replace_period : StalePeriod → List StalePeriod → List StalePeriod
replace_period p [] = []
replace_period p (q ∷ l) = (if q.number == p.number then p else q) ∷ replace_period p l

-- `_record_feed_receive_stale` with no open period.
open_period : Limits → Clocks → ℕ → ℤ → Feed → Watch → Feed × Watch × StalePeriod
open_period limits clocks now age f w =
    let s = mark_not_ready clocks NotReadyReason.feed_receive_stale (some now) true none f.state in
    let p : StalePeriod = record {
      number = w.feed_receive_stale_count;
      symbol = f.symbol;
      stale_threshold_ns = limits.feed_receive_stale_threshold_ns;
      started_monotonic_ns =
          or_number f.last_ws_message_recv_monotonic_ns now
          + limits.feed_receive_stale_threshold_ns;
      ended_monotonic_ns = none;
      max_age_ns = age;
      snapshot_ready = s.snapshot_ready;
      ready_to_emit = s.ready_to_emit;
      last_book_update_monotonic_ns = f.state.last_book_update_monotonic_ns;
      last_message_recv_monotonic_ns = f.state.last_message_recv_monotonic_ns;
      last_ws_message_recv_monotonic_ns = f.last_ws_message_recv_monotonic_ns;
      generation_id = s.generation;
    } in
    (
      record f { state = s; open_stale_period = some p },
      record w {
        stale_periods = append_256 p w.stale_periods;
        feed_receive_stale_count = w.feed_receive_stale_count + 1;
        active_feed_stale_count = w.active_feed_stale_count + 1;
        stale_book_count = w.stale_book_count + 1;
        stale_reset_count = w.stale_reset_count + 1;
        lifecycle = observe_ready_false s w.lifecycle;
      },
      p,
    )

-- `_record_feed_receive_stale` with an open period.
extend_period : ℤ → Feed → StalePeriod → Watch → Feed × Watch × StalePeriod
extend_period age f p w =
    let q : StalePeriod = record p {
      max_age_ns = max_ℤ p.max_age_ns age;
      snapshot_ready = f.state.snapshot_ready;
      ready_to_emit = f.state.ready_to_emit;
      last_message_recv_monotonic_ns = f.state.last_message_recv_monotonic_ns;
      last_ws_message_recv_monotonic_ns = f.last_ws_message_recv_monotonic_ns;
      generation_id = f.state.generation;
    } in
    (
      record f { open_stale_period = some q },
      record w { stale_periods = replace_period q w.stale_periods },
      q,
    )

abbrev open_or_extend :
    Limits → Clocks → ℕ → ℤ → Option StalePeriod → Feed → Watch → Feed × Watch × StalePeriod
open_or_extend limits clocks now age none f w = open_period limits clocks now age f w
open_or_extend limits clocks now age (some p) f w = extend_period age f p w

pub record_feed_receive_stale : Limits → Clocks → ℕ → ℤ → Feed → Watch → Feed × Watch × StalePeriod
record_feed_receive_stale limits clocks now age f w =
    open_or_extend limits clocks now age f.open_stale_period f w

abbrev close_period : ℕ → Option StalePeriod → Feed → Watch → Feed × Watch
close_period now none f w = (f, w)
close_period now (some p) f w = (
  record f { open_stale_period = none },
  record w {
    stale_periods = replace_period (record p { ended_monotonic_ns = some now }) w.stale_periods;
  },
)

pub close_stale_period : ℕ → Feed → Watch → Feed × Watch
close_stale_period now f w = close_period now f.open_stale_period f w

-- The last warning, if there is one, has its age raised.
abbrev raise_last : ℤ → List ApplyStaleWarning → List ApplyStaleWarning
raise_last age [] = []
raise_last age (x ∷ []) = record x { max_apply_age_ns = max_ℤ x.max_apply_age_ns age } ∷ []
raise_last age (x ∷ y ∷ l) = x ∷ raise_last age (y ∷ l)

pub record_processor_apply_stale : ℕ → ℤ → Option ℤ → ℕ → Feed → Watch → Feed × Watch
record_processor_apply_stale now apply_age feed_age queue_size f w =
    let checks = f.processor_apply_stale_consecutive_checks + 1 in
    if f.processor_apply_stale
    then (
      record f { processor_apply_stale_consecutive_checks = checks },
      record w {
        processor_apply_stale_warnings = raise_last apply_age w.processor_apply_stale_warnings;
      },
    )
    else (
      record f { processor_apply_stale = true; processor_apply_stale_consecutive_checks = checks },
      record w {
        processor_apply_stale_count = w.processor_apply_stale_count + 1;
        processor_apply_stale_warnings =
            append_256
              (record {
                symbol = f.symbol;
                observed_monotonic_ns = now;
                apply_age_ns = apply_age;
                max_apply_age_ns = apply_age;
                feed_receive_age_ns = feed_age;
                queue_size = queue_size;
                consecutive_checks = checks;
                snapshot_ready = f.state.snapshot_ready;
                ready_to_emit = f.state.ready_to_emit;
                generation_id = f.state.generation;
              })
              w.processor_apply_stale_warnings;
      },
    )

-- Every warning of the symbol gets the new age.
abbrev refresh_warnings : String → ℕ → ℤ → List PostCaptureWarning → List PostCaptureWarning
refresh_warnings symbol now age [] = []
refresh_warnings symbol now age (x ∷ l) =
    (if str_eq x.symbol symbol then record x { age_ns = age; observed_monotonic_ns = now } else x)
    ∷ refresh_warnings symbol now age l

pub record_post_capture_age_warning : ℕ → ℤ → Feed → Watch → Feed × Watch
record_post_capture_age_warning now age f w =
    if f.post_capture_warning
    then (
      f,
      record w {
        post_capture_age_warnings = refresh_warnings f.symbol now age w.post_capture_age_warnings;
      },
    )
    else (
      record f { post_capture_warning = true },
      record w {
        post_capture_age_warnings =
            append_256
              (record {
                symbol = f.symbol;
                observed_monotonic_ns = now;
                age_ns = age;
                snapshot_ready = f.state.snapshot_ready;
                ready_to_emit = f.state.ready_to_emit;
                last_book_update_monotonic_ns = f.state.last_book_update_monotonic_ns;
                last_message_recv_monotonic_ns = f.state.last_message_recv_monotonic_ns;
                generation_id = f.state.generation;
              })
              w.post_capture_age_warnings;
      },
    )

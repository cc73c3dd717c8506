-- ===== src/Stale/Check.antt =====
-- The body and the loop of `check_stale_periods`.
use somethingtrade.Prelude.{
  ℕ, Bool, false, not, ◌&&◌, ◌||◌, Option, none, some, List, [], ◌∷◌, ltb, ◌==◌, if◌then◌else◌, max,
}
use somethingtrade.Prelude.Int.{ℤ, pos, negsuc, ltb_ℤ}
use somethingtrade.Orderbook.Types.{Clocks}
use somethingtrade.Orderbook.State.{book_age_ns, is_none}
use somethingtrade.Queue.{record_snapshot_blocking_lag}
use somethingtrade.Quality.{age_of, is_stale}
use somethingtrade.Stale.{
  Limits, StalePeriod, Feed, Watch, record_feed_receive_stale, close_stale_period,
  record_processor_apply_stale, record_post_capture_age_warning,
}

-- The arguments of one check, for a feed that is active or not.
pub record Check : Type 0 where
  pub now_monotonic_ns : ℕ
  pub active : Bool
  pub queue_size : ℕ

abbrev pub max_age : ℕ → ℤ → ℕ
max_age n (pos age) = max n age
max_age n (negsuc age) = n

abbrev pub note_age : Option ℤ → Watch → Watch
note_age none w = w
note_age (some age) w = record w {
  max_book_age_ns = max_age w.max_book_age_ns age;
  last_book_update_age_ns_at_report = some age;
}

abbrev pub feed_age_of : ℕ → Feed → Option ℤ
feed_age_of now f = age_of (some now) f.last_ws_message_recv_monotonic_ns

abbrev pub is_feed_stale : Limits → Check → Feed → Bool
is_feed_stale limits c f =
    is_stale limits.feed_receive_stale_threshold_ns (feed_age_of c.now_monotonic_ns f)
    && (c.queue_size == 0)

abbrev is_recent : ℕ → Option ℤ → Bool
is_recent limit none = false
is_recent limit (some age) = not (ltb_ℤ (pos limit) age)

-- After the capture.
abbrev pub check_inactive : Limits → Check → Option ℤ → Feed → Watch → Feed × Watch
check_inactive limits c none f w = (f, w)
check_inactive limits c (some age) f w =
    if ltb_ℤ (pos limits.stale_threshold_ns) age && is_none f.open_stale_period
    then record_post_capture_age_warning c.now_monotonic_ns age f w
    else (f, w)

abbrev pub clear_apply_stale : Feed → Watch → Feed × Watch
clear_apply_stale f w =
    (record f { processor_apply_stale = false; processor_apply_stale_consecutive_checks = 0 }, w)

-- The feed is not silent: are updates applied?
abbrev pub check_apply : Limits → Check → Option ℤ → Option ℤ → Feed → Watch → Feed × Watch
check_apply limits c none feed_age f w = clear_apply_stale f w
check_apply limits c (some age) feed_age f w =
    if ltb_ℤ (pos limits.stale_threshold_ns) age
      && (ltb 0 c.queue_size || is_recent limits.stale_threshold_ns feed_age)
    then record_processor_apply_stale c.now_monotonic_ns age feed_age c.queue_size f w
    else clear_apply_stale f w

-- What a check returns: the feed, what is shared, and the stale period, if there is one.
abbrev pub Checked : Type 0
Checked = Feed × Watch × Option StalePeriod

abbrev pub without_period : Feed × Watch → Checked
without_period (f, w) = (f, w, none)

-- A silent feed.
abbrev pub check_silent : Limits → Clocks → Check → Option ℤ → Feed → Watch → Checked
check_silent limits clocks c none f w = (f, w, none)
check_silent limits clocks c (some age) f w =
    let (f', w', p) = record_feed_receive_stale limits clocks c.now_monotonic_ns age f w in
    (f', w', some p)

-- The checks of an active feed, with no snapshot under way.
unfoldable pub check_active : Limits → Clocks → Check → Option ℤ → Feed → Watch → Checked
unfolding record_feed_receive_stale close_stale_period record_processor_apply_stale
check_active limits clocks c apply_age f w =
    let feed_age = feed_age_of c.now_monotonic_ns f in
    if is_feed_stale limits c f
    then check_silent limits clocks c feed_age f w
    else (let (f', w') = close_stale_period c.now_monotonic_ns f w in
        without_period (check_apply limits c apply_age feed_age f' w'))

-- While a snapshot is under way only the queue is watched.
abbrev pub check_recovering : Check → Watch → Watch
check_recovering c w =
    if ltb 0 c.queue_size
    then record w { queue_monitor = record_snapshot_blocking_lag 1 w.queue_monitor }
    else w

-- The checks after the age of the book is taken.
unfoldable pub check_aged : Limits → Clocks → Check → Option ℤ → Feed → Watch → Checked
unfolding check_active record_post_capture_age_warning
check_aged limits clocks c apply_age f w =
    if not c.active
    then without_period (check_inactive limits c apply_age f w)
    else if f.snapshot_recovery_active
    then (f, check_recovering c w, none)
    else check_active limits clocks c apply_age f w

-- One round of the loop.
unfoldable pub check_feed : Limits → Clocks → Check → Feed → Watch → Checked
unfolding check_aged
check_feed limits clocks c f w =
    let (s, apply_age) = book_age_ns c.now_monotonic_ns f.state in
    check_aged limits clocks c apply_age (record f { state = s }) (note_age apply_age w)

abbrev with_period : Option StalePeriod → List StalePeriod → List StalePeriod
with_period none l = l
with_period (some p) l = p ∷ l

-- The loop over the selected symbols.
unfoldable pub check_stale_periods :
    Limits → Clocks → Check → List Feed → Watch → List Feed × Watch × List StalePeriod
check_stale_periods limits clocks c [] w = ([], w, [])
check_stale_periods limits clocks c (f ∷ fs) w =
    let (f', w', p) = check_feed limits clocks c f w in
    let (fs', w'', ps) = check_stale_periods limits clocks c fs w' in
    (f' ∷ fs', w'', with_period p ps)

-- ===== src/Orderbook/Updates.antt =====
-- `apply_snapshot` and `apply_delta` of bot/app/marketdata/orderbook_state.py.
use somethingtrade.Prelude.{
  ℕ, ◌+◌, Bool, true, false, not, ◌&&◌, Option, none, some, List, [], ◌∷◌, ◌++◌, ◌==◌, leb,
  if◌then◌else◌, or_text,
}
use somethingtrade.Orderbook.Types.{
  OrderbookState, OrderbookApplyResult, Clocks, Reason, Status, NotReadyReason, ResultBase,
  SnapshotMessage, DeltaMessage, ParsedLevel, snapshot_inconsistent, sample_before_book_ready,
  stale_snapshot_generation, stale_snapshot_before_gap_boundary, snapshot_loaded,
  delta_before_snapshot, invalid_delta_levels, delta_applied, waiting_for_first_delta_bridge,
  invalid_delta_fail_closed,
}
use somethingtrade.Orderbook.Reasons.{sorted_set}
use somethingtrade.Orderbook.Levels.{parse_levels}
use somethingtrade.Orderbook.Side.{apply_levels, levels_of}
use somethingtrade.Orderbook.State.{
  record_message_recv, result_base, result, mark_not_ready, rebuild_price_indexes,
  record_ready_false_age, refresh_ready_to_emit,
}

-- `generation is not None and generation != self.generation`
abbrev pub other_generation : Option ℕ → ℕ → Bool
other_generation none own = false
other_generation (some g) own = not (g == own)

abbrev pub before_boundary : Option ℕ → ℕ → Bool
before_boundary none id = false
before_boundary (some boundary) id = leb id boundary

-- The assignments of an accepted snapshot.
unfoldable pub load_book :
    Clocks → SnapshotMessage → List ParsedLevel → List ParsedLevel → OrderbookState → OrderbookState
load_book clocks m parsed_bids parsed_asks s =
    let s1 = rebuild_price_indexes (record s {
      bids = record s.bids { levels = levels_of [] parsed_bids };
      asks = record s.asks { levels = levels_of [] parsed_asks };
    }) in
    record_ready_false_age m.local_recv_monotonic_ns (record s1 {
      snapshot_ready = true;
      sequence_continuous = false;
      awaiting_first_delta_after_snapshot = true;
      ready_to_emit = false;
      last_not_ready_reason = some waiting_for_first_delta_bridge;
      last_update_id = some m.last_update_id;
      snapshot_last_update_id = some m.last_update_id;
      required_fresh_snapshot_after_update_id = none;
      last_book_update_monotonic_ns = some m.local_recv_monotonic_ns;
      last_successful_apply_monotonic_ns = some m.local_recv_monotonic_ns;
      last_local_recv_monotonic_ns = some m.local_recv_monotonic_ns;
      last_local_recv_wall_ts = some (or_text m.local_recv_wall_ts clocks.utc_iso_now);
      state_version = s1.state_version + 1;
    })

-- The part after the two checks of the snapshot's age.
unfoldable pub snapshot_levels :
    Clocks → SnapshotMessage → ResultBase → OrderbookState → OrderbookState × OrderbookApplyResult
snapshot_levels clocks m before s =
    let (parsed_bids, bid_errors) = parse_levels false m.bids in
    let (parsed_asks, ask_errors) = parse_levels false m.asks in
    elim (sorted_set (bid_errors ++ ask_errors)) [
      | [] ↦
          let s' = load_book clocks m parsed_bids parsed_asks s in
          (s', result before true snapshot_loaded [] none s')
      | e ∷ errors ↦
          let s' =
            mark_not_ready clocks NotReadyReason.snapshot_invalid_levels
              (some m.local_recv_monotonic_ns) false none s in
          (s', result before false Status.snapshot_invalid_levels (e ∷ errors) none s')
    ]

-- The part after `record_message_recv`.
unfoldable pub snapshot_received :
    Clocks → SnapshotMessage → OrderbookState → OrderbookState × OrderbookApplyResult
snapshot_received clocks m s =
    let before = result_base none none s in
    if other_generation m.generation s.generation
    then (s, result before false stale_snapshot_generation (snapshot_inconsistent ∷ []) none s)
    else if before_boundary s.required_fresh_snapshot_after_update_id m.last_update_id
    then (
      s,
      result before false stale_snapshot_before_gap_boundary (Reason.sequence_gap_or_reset ∷ [])
          none s,
    )
    else snapshot_levels clocks m before s

unfoldable pub apply_snapshot :
    Clocks → SnapshotMessage → OrderbookState → OrderbookState × OrderbookApplyResult
apply_snapshot clocks m s =
    snapshot_received clocks m (record_message_recv m.local_recv_monotonic_ns s)

-- `mark_not_ready` with the delta's time and its last id as the boundary, and the result.
unfoldable pub fail_closed :
    Clocks
    → DeltaMessage
    → ResultBase
    → ℕ
    → NotReadyReason
    → Status
    → List Reason
    → OrderbookState
    → OrderbookState × OrderbookApplyResult
fail_closed clocks d before last reason status errors s =
    let s' =
      mark_not_ready clocks reason (some d.local_recv_monotonic_ns) true (some d.final_update_id)
        s in
    (s', result before false status errors (some (last + 1)) s')

-- The assignments of an accepted delta.
unfoldable pub apply_book :
    DeltaMessage → List ParsedLevel → List ParsedLevel → OrderbookState → OrderbookState
apply_book d parsed_bids parsed_asks s = refresh_ready_to_emit d.local_recv_monotonic_ns (record s {
  bids = apply_levels s.bids parsed_bids;
  asks = apply_levels s.asks parsed_asks;
  last_update_id = some d.final_update_id;
  last_book_update_monotonic_ns = some d.local_recv_monotonic_ns;
  last_successful_apply_monotonic_ns = some d.local_recv_monotonic_ns;
  last_local_recv_monotonic_ns = some d.local_recv_monotonic_ns;
  awaiting_first_delta_after_snapshot = false;
  sequence_continuous = true;
  state_version = s.state_version + 1;
})

-- The part after the checks of the update ids.
unfoldable pub delta_levels :
    Clocks → DeltaMessage → ResultBase → ℕ → OrderbookState → OrderbookState × OrderbookApplyResult
delta_levels clocks d before last s =
    let (parsed_bids, bid_errors) = parse_levels true d.bids in
    let (parsed_asks, ask_errors) = parse_levels true d.asks in
    elim (sorted_set (bid_errors ++ ask_errors)) [
      | [] ↦
          let s' = apply_book d parsed_bids parsed_asks s in
          (s', result before true delta_applied [] (some (last + 1)) s')
      | e ∷ errors ↦
          fail_closed clocks d before last invalid_delta_fail_closed invalid_delta_levels
            (e ∷ errors) s
    ]

-- `previous_final_update_id is not None and int(previous_final_update_id) != last`
abbrev pub other_previous : Option ℕ → ℕ → Bool
other_previous none last = false
other_previous (some previous) last = not (previous == last)

-- `first_update_id <= snapshot_last_update_id + 1 <= final_update_id`, for a known snapshot id
abbrev pub bridges : DeltaMessage → Option ℕ → Bool
bridges d none = false
bridges d (some snapshot) =
    leb d.first_update_id (snapshot + 1) && leb (snapshot + 1) d.final_update_id

unfoldable pub delta_after_snapshot :
    Clocks → DeltaMessage → ResultBase → ℕ → OrderbookState → OrderbookState × OrderbookApplyResult
delta_after_snapshot clocks d before last s =
    if leb d.final_update_id last
    then (let s' = record_ready_false_age d.local_recv_monotonic_ns s in
        (
          s',
          result before false Status.duplicate_update (Reason.duplicate_update ∷ [])
              (some (last + 1)) s',
        ))
    else if other_previous d.previous_final_update_id last
    then fail_closed clocks d before last NotReadyReason.previous_final_update_id_mismatch
        Status.previous_final_update_id_mismatch (Reason.previous_final_update_id_mismatch ∷ []) s
    else if s.awaiting_first_delta_after_snapshot && not (bridges d s.snapshot_last_update_id)
    then fail_closed clocks d before last NotReadyReason.sequence_bridge_failed
        Status.sequence_bridge_failed (Reason.sequence_gap_or_reset ∷ []) s
    else if not s.awaiting_first_delta_after_snapshot && not (d.first_update_id == last + 1)
    then fail_closed clocks d before last NotReadyReason.sequence_gap_or_reset
        Status.sequence_gap_or_reset (Reason.sequence_gap_or_reset ∷ []) s
    else delta_levels clocks d before last s

unfoldable pub delta_too_early :
    DeltaMessage → ResultBase → OrderbookState → OrderbookState × OrderbookApplyResult
delta_too_early d before s =
    let s' = record_ready_false_age d.local_recv_monotonic_ns s in
    (s', result before false delta_before_snapshot (sample_before_book_ready ∷ []) none s')

-- The part after `record_message_recv`.
unfoldable pub delta_received :
    Clocks → DeltaMessage → OrderbookState → OrderbookState × OrderbookApplyResult
delta_received clocks d s =
    let before = result_base (some d.first_update_id) (some d.final_update_id) s in
    if s.snapshot_ready
    then elim s.last_update_id [
      | none ↦ delta_too_early d before s
      | some last ↦ delta_after_snapshot clocks d before last s
    ]
    else delta_too_early d before s

unfoldable pub apply_delta :
    Clocks → DeltaMessage → OrderbookState → OrderbookState × OrderbookApplyResult
apply_delta clocks d s = delta_received clocks d (record_message_recv d.local_recv_monotonic_ns s)

-- ===== src/Orderbook/Tests.antt =====
-- Runs of the order book state on small inputs.
use somethingtrade.Prelude.{
  ℕ, ◌+◌, ◌≡◌, ◌≢◌, ◌↔◌, refl, true, false, none, some, List, [], ◌∷◌, arith, take, reverse,
}
use somethingtrade.Prelude.Int.{pos}
use somethingtrade.Prelude.Sorted.{sorted}
use somethingtrade.Prelude.Dict.{get, keys}
use somethingtrade.Orderbook.Types.{
  OrderbookState, Clocks, SnapshotMessage, DeltaMessage, Row, object, sequence, number, finite,
  ParsedLevel, delta_before_snapshot, Status, SideBook,
}
use somethingtrade.Orderbook.Levels.{
  decimal_or_none, parse_price, parse_size, raw_level, parse_row, parse_levels,
}
use somethingtrade.Orderbook.Reasons.{rank, sorted_set}
use somethingtrade.Orderbook.Side.{apply_level, apply_levels, rebuild_prices, levels_of, is_current}
use somethingtrade.Orderbook.State.{
  init, record_message_recv, rebuild_price_indexes, ensure_price_indexes, best_bid, best_ask,
  active_level_errors, is_empty, book_errors, validate, record_ready_false_age,
  refresh_ready_to_emit, mark_not_ready, result_base, result,
}
use somethingtrade.Orderbook.Updates.{
  load_book, snapshot_levels, snapshot_received, apply_snapshot, fail_closed, apply_book,
  delta_levels, delta_after_snapshot, delta_too_early, delta_received, apply_delta,
}
use somethingtrade.Orderbook.View.{top_n, bid_side, ask_side}
use somethingtrade.Orderbook.Sound.{last_size, written}
use somethingtrade.Orderbook.Parsing.{AllRead, parse_levels_iff}
use somethingtrade.Orderbook.Best.{Uncrossed, validate-nil_iff}
use somethingtrade.Orderbook.WellFormed.{IsWellFormed, init-IsWellFormed}
use somethingtrade.Orderbook.Reach.{
  here, next, snapshot, delta, Reach-IsWellFormed, Step-IsWellFormed,
}
use somethingtrade.Orderbook.Sequence.{
  IsAcceptable, apply_delta-accepted_iff, Untouched, apply_delta_rejected, Advanced,
  apply_delta_accepted, Blocked, apply_delta_fail_closed,
}
use somethingtrade.Orderbook.Feed.{
  Deltas, Bridged, run_deltas, bid_levels, ask_levels, Loaded, apply_snapshot_accepted,
  replay_exact,
}
use somethingtrade.Orderbook.Recovery.{Message, feed, Held, Blocked-until_fresh}
use somethingtrade.Orderbook.Top.{Shows, top_n_lem}

abbrev pub clocks : Clocks
clocks = record { monotonic_now_ns = 7; utc_iso_now = "2026-01-01T00:00:00Z" }

abbrev row : ℕ → ℕ → Row
row price size = object (number (finite (pos price))) (number (finite (pos size)))

abbrev pub snapshot_message : SnapshotMessage
snapshot_message = record {
  bids = row 100 5 ∷ row 99 3 ∷ [];
  asks = row 102 4 ∷ [];
  last_update_id = 10;
  local_recv_monotonic_ns = 20;
  local_recv_wall_ts = none;
  generation = some 0;
}

abbrev pub delta_message : ℕ → ℕ → List Row → DeltaMessage
delta_message first final bids = record {
  first_update_id = first;
  final_update_id = final;
  bids = bids;
  asks = [];
  local_recv_monotonic_ns = 30;
  previous_final_update_id = none;
}

abbrev pub bridge : DeltaMessage
bridge = delta_message 9 12 (row 100 0 ∷ row 101 7 ∷ [])

abbrev pub follow : DeltaMessage
follow = delta_message 13 13 (row 99 8 ∷ [])

abbrev pub gap : DeltaMessage
gap = delta_message 20 21 []

abbrev pub fresh : OrderbookState
fresh = init clocks "BTCUSDT" 0

abbrev pub with_snapshot : OrderbookState
with_snapshot = (apply_snapshot clocks snapshot_message fresh).0

abbrev pub with_bridge : OrderbookState
with_bridge = (apply_delta clocks bridge with_snapshot).0

abbrev after_gap : OrderbookState
after_gap = (apply_delta clocks gap with_bridge).0

-- The snapshot and the two deltas that continue it are accepted, and the state is ready; the delta
-- that leaves a hole is not accepted.
pub runs :
    ((apply_snapshot clocks snapshot_message fresh).1.accepted ≡ true)
    × ((apply_delta clocks bridge with_snapshot).1.accepted ≡ true)
    × ((apply_delta clocks follow with_bridge).1.accepted ≡ true)
    × ((apply_delta clocks gap with_bridge).1.accepted ≡ false)
    × ((apply_delta clocks gap with_bridge).1.status ≡ Status.sequence_gap_or_reset)
    × (with_bridge.ready_to_emit ≡ true)
unfolding init record_message_recv rebuild_price_indexes ensure_price_indexes best_bid best_ask
    active_level_errors is_empty book_errors validate record_ready_false_age refresh_ready_to_emit
    mark_not_ready result_base result load_book snapshot_levels snapshot_received apply_snapshot
    fail_closed apply_book delta_levels delta_after_snapshot delta_too_early delta_received
    apply_delta decimal_or_none parse_price parse_size raw_level parse_row parse_levels rank
    sorted_set apply_level apply_levels rebuild_prices levels_of is_current
runs = (refl, refl, refl, refl, refl, refl)

with_snapshot-IsWellFormed : IsWellFormed with_snapshot
with_snapshot-IsWellFormed =
    Step-IsWellFormed (snapshot clocks snapshot_message fresh)
      (init-IsWellFormed clocks "BTCUSDT" 0)

Reach-IsWellFormed_example : IsWellFormed with_bridge
Reach-IsWellFormed_example =
    Reach-IsWellFormed clocks "BTCUSDT" 0 (
      next (next here (snapshot clocks snapshot_message fresh)) (delta clocks bridge with_snapshot))

pub with_bridge-IsWellFormed : IsWellFormed with_bridge
with_bridge-IsWellFormed =
    Step-IsWellFormed (delta clocks bridge with_snapshot) with_snapshot-IsWellFormed

abbrev deltas : Deltas
deltas = (clocks, bridge) ∷ (clocks, follow) ∷ []

replay_exact_example :
    Bridged 10 deltas
    × (get (run_deltas deltas with_snapshot).bids.levels 99
        ≡ written
            (last_size (bid_levels deltas) 99)
            (last_size (parse_levels false snapshot_message.bids).0 99))
    × (get (run_deltas deltas with_snapshot).asks.levels 99
        ≡ written
            (last_size (ask_levels deltas) 99)
            (last_size (parse_levels false snapshot_message.asks).0 99))
replay_exact_example =
    replay_exact clocks snapshot_message deltas fresh 99 (init-IsWellFormed clocks "BTCUSDT" 0)
      runs.0 (runs.1, (runs.2, tt))

apply_delta-accepted_iff_example :
    ((apply_delta clocks bridge with_snapshot).1.accepted ≡ true)
    ↔ IsAcceptable bridge with_snapshot
apply_delta-accepted_iff_example = apply_delta-accepted_iff clocks bridge with_snapshot

apply_delta_rejected_example : Untouched with_bridge after_gap
apply_delta_rejected_example = apply_delta_rejected clocks gap with_bridge runs.3

apply_delta_accepted_example : Advanced bridge with_snapshot with_bridge
apply_delta_accepted_example =
    apply_delta_accepted clocks bridge with_snapshot with_snapshot-IsWellFormed runs.1

not_early : (apply_delta clocks gap with_bridge).1.status ≢ delta_before_snapshot
not_early h = cc runs.4

not_duplicate : (apply_delta clocks gap with_bridge).1.status ≢ Status.duplicate_update
not_duplicate h = cc runs.4

after_gap-Blocked : Blocked 21 after_gap
after_gap-Blocked =
    (apply_delta_fail_closed clocks gap with_bridge runs.3 not_early not_duplicate).0

apply_delta_fail_closed_example :
    Blocked 21 after_gap × (after_gap.generation ≡ with_bridge.generation + 1)
apply_delta_fail_closed_example =
    apply_delta_fail_closed clocks gap with_bridge runs.3 not_early not_duplicate

abbrev stale_messages : List Message
stale_messages = Message.delta clocks follow ∷ Message.snapshot clocks snapshot_message ∷ []

Blocked-until_fresh_example : Held 21 after_gap.bids after_gap.asks (feed stale_messages after_gap)
Blocked-until_fresh_example =
    Blocked-until_fresh 21 stale_messages after_gap after_gap-Blocked (tt, (omega arith, tt))

apply_snapshot_accepted_example : Loaded snapshot_message fresh with_snapshot
apply_snapshot_accepted_example = apply_snapshot_accepted clocks snapshot_message fresh runs.0

top_n_lem_example :
    Shows with_bridge.bids.levels
      (take 1 (reverse (sorted (keys with_bridge.bids.levels))))
      (top_n bid_side 1 with_bridge).1
    × Shows with_bridge.asks.levels
        (take 1 (sorted (keys with_bridge.asks.levels)))
        (top_n ask_side 1 with_bridge).1
    × ((top_n bid_side 1 with_bridge).0 ≡ with_bridge)
    × ((top_n ask_side 1 with_bridge).0 ≡ with_bridge)
top_n_lem_example = top_n_lem 1 with_bridge with_bridge-IsWellFormed

validate-nil_iff_example :
    ((validate with_bridge).1 ≡ []) ↔ Uncrossed (best_bid with_bridge).1 (best_ask with_bridge).1
validate-nil_iff_example =
    validate-nil_iff with_bridge with_bridge-IsWellFormed.bids.indexed
      with_bridge-IsWellFormed.asks.indexed with_bridge-IsWellFormed.bids.positive
      with_bridge-IsWellFormed.asks.positive

abbrev level : ℕ → ℕ → ParsedLevel
level price size = record { price = price; size = size }

parse_levels_iff_example :
    (parse_levels true
        (row 100 5 ∷ sequence (number (finite (pos 99)) ∷ number (finite (pos 0)) ∷ []) ∷ [])
      ≡ (level 100 5 ∷ level 99 0 ∷ [], []))
    ↔ AllRead true
        (row 100 5 ∷ sequence (number (finite (pos 99)) ∷ number (finite (pos 0)) ∷ []) ∷ [])
        (level 100 5 ∷ level 99 0 ∷ [])
parse_levels_iff_example =
    parse_levels_iff true
      (row 100 5 ∷ sequence (number (finite (pos 99)) ∷ number (finite (pos 0)) ∷ []) ∷ [])
      (level 100 5 ∷ level 99 0 ∷ [])

abbrev side : SideBook
side = record { levels = (100, 5) ∷ []; prices_asc = 100 ∷ [] }

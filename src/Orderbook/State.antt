-- ===== src/Orderbook/State.antt =====
-- `OrderbookState` of bot/app/marketdata/orderbook_state.py: the constructor, the best prices,
-- `validate`, and the readiness of the state. A method returns the new state, with its result.
use somethingtrade.Prelude.{
  ℕ, ◌+◌, ◌-◌, ◌*◌, String, Bool, true, false, not, ◌&&◌, ◌||◌, Option, none, some, List, [], ◌∷◌,
  ◌++◌, ◌==◌, ltb, leb, if◌then◌else◌, or_number, head?, get_last?,
}
use somethingtrade.Prelude.Int.{ℤ, sub_ℕ}
use somethingtrade.Prelude.Dict.{Dict}
use somethingtrade.Orderbook.Types.{
  OrderbookState, SideBook, Clocks, Reason, NotReadyReason, initial_snapshot_missing,
  quality_gate_failed, symbol_removed, best_ask_missing, best_bid_missing, book_empty, crossed_book,
  one_side_missing, invalid_price_level, invalid_size_level, negative_price, negative_size,
  ResultBase, OrderbookApplyResult, Status,
}
use somethingtrade.Orderbook.Reasons.{sorted_set}
use somethingtrade.Orderbook.Side.{rebuild_prices, is_current}

abbrev pub empty_side : SideBook
empty_side = record { levels = []; prices_asc = [] }

-- `__init__`; the symbol comes in upper case, and the warning time in nanoseconds.
unfoldable pub init : Clocks → String → ℕ → OrderbookState
init clocks symbol warning_after_ns = record {
  symbol = symbol;
  bids = empty_side;
  asks = empty_side;
  snapshot_ready = false;
  ready_to_emit = false;
  last_update_id = none;
  snapshot_last_update_id = none;
  required_fresh_snapshot_after_update_id = none;
  state_version = 0;
  generation = 0;
  sequence_continuous = false;
  awaiting_first_delta_after_snapshot = false;
  last_not_ready_reason = some initial_snapshot_missing;
  last_message_recv_monotonic_ns = none;
  last_book_update_monotonic_ns = none;
  last_successful_apply_monotonic_ns = none;
  last_stale_check_monotonic_ns = none;
  last_local_recv_monotonic_ns = none;
  last_local_recv_wall_ts = none;
  ready_false_since_monotonic_ns = some clocks.monotonic_now_ns;
  ready_false_warning_after_ns = warning_after_ns;
  ready_to_emit_false_duration_ns_max = 0;
  ready_to_emit_false_warning_count = 0;
}

unfoldable pub record_message_recv : ℕ → OrderbookState → OrderbookState
record_message_recv recv s = record s {
  last_message_recv_monotonic_ns = some recv;
  last_local_recv_monotonic_ns = some recv;
}

-- The age is an integer, since the book may be newer than the given time.
abbrev age_ns : ℕ → Option ℕ → Option ℤ
age_ns now none = none
age_ns now (some updated) = some (sub_ℕ now updated)

unfoldable pub book_age_ns : ℕ → OrderbookState → OrderbookState × Option ℤ
book_age_ns now s = (
  record s { last_stale_check_monotonic_ns = some now },
  age_ns now s.last_book_update_monotonic_ns,
)

unfoldable pub rebuild_price_indexes : OrderbookState → OrderbookState
rebuild_price_indexes s = record s { bids = rebuild_prices s.bids; asks = rebuild_prices s.asks }

unfoldable pub ensure_price_indexes : OrderbookState → OrderbookState
ensure_price_indexes s =
    if not (is_current s.bids) || not (is_current s.asks) then rebuild_price_indexes s else s

unfoldable pub best_bid : OrderbookState → OrderbookState × Option ℕ
best_bid s = let s' = ensure_price_indexes s in (s', get_last? s'.bids.prices_asc)

unfoldable pub best_ask : OrderbookState → OrderbookState × Option ℕ
best_ask s = let s' = ensure_price_indexes s in (s', head? s'.asks.prices_asc)

-- The prices and sizes of a book are finite by their type, so two of the four tests are left.
unfoldable pub active_level_errors : Dict ℕ → List Reason
active_level_errors [] = []
active_level_errors ((price, size) ∷ book) =
    (if price == 0 then negative_price ∷ invalid_price_level ∷ [] else [])
    ++ ((if size == 0 then negative_size ∷ invalid_size_level ∷ [] else [])
        ++ active_level_errors book)

unfoldable pub is_empty {ℓ} : {A : Type ℓ} → List A → Bool
is_empty [] = true
is_empty (x ∷ l) = false

abbrev pub is_none {ℓ} : {A : Type ℓ} → Option A → Bool
is_none none = true
is_none (some a) = false

abbrev pub crossed : Option ℕ → Option ℕ → Bool
crossed (some bid) (some ask) = leb ask bid
crossed (some bid) none = false
crossed none ask = false

abbrev pub flag : Bool → Reason → List Reason
flag true r = r ∷ []
flag false r = []

-- The errors that `validate` collects, before they are sorted.
unfoldable pub book_errors : Dict ℕ → Dict ℕ → Option ℕ → Option ℕ → List Reason
book_errors bids asks bid ask =
    active_level_errors bids
    ++ (active_level_errors asks
        ++ (flag (is_empty bids && is_empty asks) book_empty
            ++ (flag (is_empty bids || is_empty asks) one_side_missing
                ++ (flag (is_none bid) best_bid_missing
                    ++ (flag (is_none ask) best_ask_missing
                        ++ flag (crossed bid ask) crossed_book)))))

unfoldable pub validate : OrderbookState → OrderbookState × List Reason
validate s =
    let (s1, bid) = best_bid s in
    let (s2, ask) = best_ask s1 in
    (s2, sorted_set (book_errors s2.bids.levels s2.asks.levels bid ask))

-- Nothing is measured while the state is ready, or when no start is known. A difference below zero
-- and one of zero behave alike, for neither passes the maximum or a positive threshold.
abbrev pub ready_false_age : ℕ → Option ℕ → OrderbookState → OrderbookState
ready_false_age now none s = s
ready_false_age now (some since) s =
    let duration = now - since in
    let threshold = s.ready_false_warning_after_ns in
    record s {
      ready_to_emit_false_duration_ns_max =
          if ltb s.ready_to_emit_false_duration_ns_max duration
          then duration
          else s.ready_to_emit_false_duration_ns_max;
      ready_to_emit_false_warning_count =
          if ltb 0 threshold && leb ((s.ready_to_emit_false_warning_count + 1) * threshold) duration
          then s.ready_to_emit_false_warning_count + 1
          else s.ready_to_emit_false_warning_count;
    }

unfoldable pub record_ready_false_age : ℕ → OrderbookState → OrderbookState
record_ready_false_age now s =
    if s.ready_to_emit then s else ready_false_age now s.ready_false_since_monotonic_ns s

abbrev pub or_else {ℓ} : {A : Type ℓ} → Option A → A → A
or_else none a = a
or_else (some b) a = b

unfoldable pub refresh_ready_to_emit : ℕ → OrderbookState → OrderbookState
refresh_ready_to_emit now s =
    let (s1, errors) = validate s in
    let ready =
      s1.snapshot_ready
      && (s1.sequence_continuous
          && (not s1.awaiting_first_delta_after_snapshot && is_empty errors)) in
    if ready
    then record s1 {
      ready_to_emit = true;
      ready_false_since_monotonic_ns = none;
      last_not_ready_reason = none;
    }
    else record_ready_false_age now (record s1 {
      ready_to_emit = false;
      ready_false_since_monotonic_ns = some (or_else s1.ready_false_since_monotonic_ns now);
      last_not_ready_reason = some (or_else s1.last_not_ready_reason quality_gate_failed);
    })

abbrev or_keep {ℓ} : {A : Type ℓ} → Option A → Option A → Option A
or_keep none old = old
or_keep (some a) old = some a

-- The arguments of `mark_not_ready`: its reason, and those that have defaults.
unfoldable pub mark_not_ready :
    Clocks → NotReadyReason → Option ℕ → Bool → Option ℕ → OrderbookState → OrderbookState
mark_not_ready clocks reason recv advance_generation boundary s =
    let now = or_number recv clocks.monotonic_now_ns in
    record_ready_false_age now (record s {
      ready_false_since_monotonic_ns = some (or_else s.ready_false_since_monotonic_ns now);
      snapshot_ready = false;
      ready_to_emit = false;
      sequence_continuous = false;
      awaiting_first_delta_after_snapshot = false;
      last_not_ready_reason = some reason;
      generation = if advance_generation then s.generation + 1 else s.generation;
      required_fresh_snapshot_after_update_id =
          or_keep boundary s.required_fresh_snapshot_after_update_id;
    })

unfoldable pub mark_ready : Clocks → Option ℕ → OrderbookState → OrderbookState × Bool
mark_ready clocks recv s =
    let s' = refresh_ready_to_emit (or_number recv clocks.monotonic_now_ns) s in
    (s', s'.ready_to_emit)

unfoldable pub cleanup : OrderbookState → OrderbookState
cleanup s = record s {
  bids = empty_side;
  asks = empty_side;
  snapshot_ready = false;
  ready_to_emit = false;
  sequence_continuous = false;
  awaiting_first_delta_after_snapshot = false;
  last_not_ready_reason = some symbol_removed;
}

unfoldable pub result_base : Option ℕ → Option ℕ → OrderbookState → ResultBase
result_base first final s = record {
  first_update_id = first;
  final_update_id = final;
  previous_last_update_id = s.last_update_id;
  state_version_before = s.state_version;
  snapshot_ready_before = s.snapshot_ready;
  generation_before = s.generation;
}

unfoldable pub result :
    ResultBase → Bool → Status → List Reason → Option ℕ → OrderbookState → OrderbookApplyResult
result before accepted status errors expected s = record {
  accepted = accepted;
  status = status;
  errors = errors;
  first_update_id = before.first_update_id;
  final_update_id = before.final_update_id;
  previous_last_update_id = before.previous_last_update_id;
  expected_next_update_id = expected;
  state_version_before = before.state_version_before;
  state_version_after = s.state_version;
  snapshot_ready_before = before.snapshot_ready_before;
  snapshot_ready_after = s.snapshot_ready;
  ready_to_emit_after = s.ready_to_emit;
  generation_before = before.generation_before;
  generation_after = s.generation;
}

-- ===== src/Orderbook/WellFormed.antt =====
-- The invariant of `OrderbookState`, for each of its methods.
use somethingtrade.Orderbook.Aging.{Aged, record_ready_false_age-Aged}
use somethingtrade.Prelude.{
  ℕ, ◌≡◌, refl, Bool, true, false, Option, none, String, List, [], head?, get_last?,
}
use somethingtrade.Orderbook.Types.{
  OrderbookState, Clocks, NotReadyReason, SideBook, SnapshotMessage, ParsedLevel,
}
use somethingtrade.Orderbook.Side.{apply_levels, levels_of, rebuild_prices}
use somethingtrade.Orderbook.State.{
  init, record_message_recv, mark_not_ready, rebuild_price_indexes, cleanup, is_none, empty_side,
}
use somethingtrade.Orderbook.Updates.{load_book}
use somethingtrade.Orderbook.Index.{IsIndexed, apply_levels-IsIndexed, levels_of-Distinct}
use somethingtrade.Orderbook.Sound.{
  IsPositive, ArePriced, AreSized, apply_levels-IsPositive, levels_of-IsPositive,
}
use somethingtrade.Orderbook.Best.{Uncrossed}

-- The index is the sorted list of the prices, and every price and size is positive.
pub record IsSound (side : SideBook) : Type 0 where
  pub indexed : IsIndexed side
  pub positive : IsPositive side.levels

-- What a state must have while it is ready to emit samples.
pub record IsReady (s : OrderbookState) : Type 0 where
  pub snapshot : s.snapshot_ready ≡ true
  pub continuous : s.sequence_continuous ≡ true
  pub bridged : s.awaiting_first_delta_after_snapshot ≡ false
  pub uncrossed : Uncrossed (get_last? s.bids.prices_asc) (head? s.asks.prices_asc)
  pub untimed : s.ready_false_since_monotonic_ns ≡ none

pub record IsWellFormed (s : OrderbookState) : Type 0 where
  pub bids : IsSound s.bids
  pub asks : IsSound s.asks
  pub ready : s.ready_to_emit ≡ true → IsReady s
  -- a snapshot gives the last update id and clears the boundary of the last gap
  pub known : s.snapshot_ready ≡ true → is_none s.last_update_id ≡ false
  pub fresh : s.snapshot_ready ≡ true → s.required_fresh_snapshot_after_update_id ≡ none
  -- before the first delta the last id is that of the snapshot
  pub awaiting :
      s.awaiting_first_delta_after_snapshot ≡ true
      → (s.snapshot_ready ≡ true) × (s.snapshot_last_update_id ≡ s.last_update_id)
  pub continuous :
      s.sequence_continuous ≡ true
      → (s.snapshot_ready ≡ true) × (s.awaiting_first_delta_after_snapshot ≡ false)

empty-IsSound : IsSound empty_side
empty-IsSound = record { indexed = record { distinct = tt; index = refl }; positive = tt }

-- A new state is well formed.
pub init-IsWellFormed : (c : Clocks) (symbol : String) (w : ℕ) → IsWellFormed (init c symbol w)
unfolding init
init-IsWellFormed c symbol w = record {
  bids = empty-IsSound;
  asks = empty-IsSound;
  ready = λ e. cc;
  known = λ e. cc;
  fresh = λ e. cc;
  awaiting = λ e. cc;
  continuous = λ e. cc;
}

pub Aged-IsWellFormed : {s t : OrderbookState} → Aged s t → IsWellFormed s → IsWellFormed t
Aged-IsWellFormed a h = rw a.same (record {
  bids = h.bids;
  asks = h.asks;
  ready = λ e.
      let r = h.ready e in
      record {
        snapshot = r.snapshot;
        continuous = r.continuous;
        bridged = r.bridged;
        uncrossed = r.uncrossed;
        untimed = r.untimed;
      };
  known = h.known;
  fresh = h.fresh;
  awaiting = h.awaiting;
  continuous = h.continuous;
})

-- A state with a sound book that is not ready, under the flags that its other fields need.
not_ready-IsWellFormed :
    (s : OrderbookState)
    → IsSound s.bids
    → IsSound s.asks
    → s.snapshot_ready ≡ false
    → s.ready_to_emit ≡ false
    → s.sequence_continuous ≡ false
    → s.awaiting_first_delta_after_snapshot ≡ false
    → IsWellFormed s
not_ready-IsWellFormed s b a n r q w = record {
  bids = b;
  asks = a;
  ready = λ e. cc;
  known = λ e. cc;
  fresh = λ e. cc;
  awaiting = λ e. cc;
  continuous = λ e. cc;
}

pub mark_not_ready-IsWellFormed :
    (c : Clocks) (r : NotReadyReason) (t : Option ℕ) (g : Bool) (b : Option ℕ) (s : OrderbookState)
    → IsSound s.bids
    → IsSound s.asks
    → IsWellFormed (mark_not_ready c r t g b s)
unfolding mark_not_ready
mark_not_ready-IsWellFormed c r t g b s hb ha =
    Aged-IsWellFormed (record_ready_false_age-Aged _ _)
      (not_ready-IsWellFormed _ hb ha refl refl refl refl)

pub cleanup-IsWellFormed : (s : OrderbookState) → IsWellFormed (cleanup s)
unfolding cleanup
cleanup-IsWellFormed s = not_ready-IsWellFormed _ empty-IsSound empty-IsSound refl refl refl refl

pub received-IsWellFormed :
    (t : ℕ) (s : OrderbookState) → IsWellFormed s → IsWellFormed (record_message_recv t s)
unfolding record_message_recv
received-IsWellFormed t s h = record {
  bids = h.bids;
  asks = h.asks;
  ready = λ e.
      let r = h.ready e in
      record {
        snapshot = r.snapshot;
        continuous = r.continuous;
        bridged = r.bridged;
        uncrossed = r.uncrossed;
        untimed = r.untimed;
      };
  known = h.known;
  fresh = h.fresh;
  awaiting = h.awaiting;
  continuous = h.continuous;
}

loaded-IsSound :
    (levels : List ParsedLevel) (old : SideBook)
    → ArePriced levels
    → AreSized levels
    → IsSound (rebuild_prices (record old { levels = levels_of [] levels }))
unfolding rebuild_prices
loaded-IsSound levels old p q = record {
  indexed = record { distinct = levels_of-Distinct [] levels tt; index = refl };
  positive = levels_of-IsPositive [] levels p q tt;
}

pub load_book-IsWellFormed :
    (c : Clocks) (m : SnapshotMessage) (bids asks : List ParsedLevel) (s : OrderbookState)
    → ArePriced bids
    → AreSized bids
    → ArePriced asks
    → AreSized asks
    → IsWellFormed (load_book c m bids asks s)
unfolding load_book rebuild_price_indexes
load_book-IsWellFormed c m bids asks s pb qb pa qa =
    Aged-IsWellFormed (record_ready_false_age-Aged _ _) (record {
      bids = loaded-IsSound bids s.bids pb qb;
      asks = loaded-IsSound asks s.asks pa qa;
      ready = λ e. cc;
      known = λ e. refl;
      fresh = λ e. refl;
      awaiting = λ e. (refl, refl);
      continuous = λ e. cc;
    })

pub applied-IsSound :
    (side : SideBook) (levels : List ParsedLevel)
    → ArePriced levels
    → IsSound side
    → IsSound (apply_levels side levels)
applied-IsSound side levels p h = record {
  indexed = apply_levels-IsIndexed side levels h.indexed;
  positive = apply_levels-IsPositive side levels p h.positive;
}

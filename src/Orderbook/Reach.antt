-- ===== src/Orderbook/Reach.antt =====
-- The runs of `OrderbookState`: any sequence of calls of its methods, from a new state.
use somethingtrade.Prelude.{ℕ, ◌≡◌, refl, Bool, true, false, Option, String, List}
use somethingtrade.Orderbook.Types.{
  OrderbookState, Clocks, NotReadyReason, SnapshotMessage, DeltaMessage, ParsedLevel,
}
use somethingtrade.Orderbook.State.{
  init, record_message_recv, mark_not_ready, mark_ready, validate, best_bid, best_ask, book_age_ns,
  cleanup,
}
use somethingtrade.Orderbook.Updates.{apply_snapshot, apply_book, apply_delta}
use somethingtrade.Orderbook.View.{BookSide, top_n, copy_snapshot}
use somethingtrade.Orderbook.Sound.{ArePriced, parse_levels-ArePriced, parse_levels-AreSized}
use somethingtrade.Orderbook.Best.{validate-state, ensure-eq}
use somethingtrade.Orderbook.Outcome.{
  DeltaOutcome, early, duplicate, closed, applied, apply_delta-Outcome, SnapshotOutcome, refused,
  invalid, loaded, apply_snapshot-Outcome,
}
use somethingtrade.Orderbook.WellFormed.{
  IsWellFormed, Aged-IsWellFormed, mark_not_ready-IsWellFormed, cleanup-IsWellFormed,
  received-IsWellFormed, load_book-IsWellFormed, applied-IsSound, init-IsWellFormed,
}
use somethingtrade.Orderbook.Aging.{record_ready_false_age-Aged}
use somethingtrade.Orderbook.Refresh.{refresh-IsWellFormed}

apply_book-IsWellFormed :
    (d : DeltaMessage) (bids asks : List ParsedLevel) (s : OrderbookState)
    → ArePriced bids
    → ArePriced asks
    → s.snapshot_ready ≡ true
    → IsWellFormed s
    → IsWellFormed (apply_book d bids asks s)
unfolding apply_book
apply_book-IsWellFormed d bids asks s pb pa r h =
    refresh-IsWellFormed d.local_recv_monotonic_ns _ (record {
      bids = applied-IsSound s.bids bids pb h.bids;
      asks = applied-IsSound s.asks asks pa h.asks;
      ready = λ e. cc;
      known = λ e. refl;
      fresh = h.fresh;
      awaiting = λ e. cc;
      continuous = λ e. (r, refl);
    })

pub apply_delta-IsWellFormed :
    (c : Clocks) (d : DeltaMessage) (s : OrderbookState)
    → IsWellFormed s
    → IsWellFormed (apply_delta c d s).0
apply_delta-IsWellFormed c d s h =
    by_outcome (received-IsWellFormed d.local_recv_monotonic_ns s h) (apply_delta-Outcome c d s)
  where
    by_outcome :
        {t : OrderbookState}
        → IsWellFormed t
        → DeltaOutcome c d t (apply_delta c d s)
        → IsWellFormed (apply_delta c d s).0
    by_outcome h (early why e _ _) = rw e (Aged-IsWellFormed (record_ready_false_age-Aged _ _) h)
    by_outcome h (duplicate last r l o e _ _) =
        rw e (Aged-IsWellFormed (record_ready_false_age-Aged _ _) h)
    by_outcome h (closed last reason r l o n e _ _ _) =
        rw e (mark_not_ready-IsWellFormed _ _ _ _ _ _ h.bids h.asks)
    by_outcome h (applied last r l o eb ea e _ _) = rw e (
        apply_book-IsWellFormed d _ _ _ (parse_levels-ArePriced true d.bids)
          (parse_levels-ArePriced true d.asks) r h)

pub apply_snapshot-IsWellFormed :
    (c : Clocks) (m : SnapshotMessage) (s : OrderbookState)
    → IsWellFormed s
    → IsWellFormed (apply_snapshot c m s).0
apply_snapshot-IsWellFormed c m s h =
    by_outcome (received-IsWellFormed m.local_recv_monotonic_ns s h) (apply_snapshot-Outcome c m s)
  where
    by_outcome :
        {t : OrderbookState}
        → IsWellFormed t
        → SnapshotOutcome c m t (apply_snapshot c m s)
        → IsWellFormed (apply_snapshot c m s).0
    by_outcome h (refused why e _) = rw e h
    by_outcome h (invalid n e _) = rw e (mark_not_ready-IsWellFormed _ _ _ _ _ _ h.bids h.asks)
    by_outcome h (loaded own fresh eb ea e _) = rw e (
        load_book-IsWellFormed c m _ _ _ (parse_levels-ArePriced false m.bids)
          (parse_levels-AreSized m.bids) (parse_levels-ArePriced false m.asks)
          (parse_levels-AreSized m.asks))

-- One call of a method.
pub data Step : OrderbookState → OrderbookState → Type 0 where
  snapshot :
      (c : Clocks) (m : SnapshotMessage) (s : OrderbookState) → Step s (apply_snapshot c m s).0
  delta : (c : Clocks) (d : DeltaMessage) (s : OrderbookState) → Step s (apply_delta c d s).0
  not_ready :
      (c : Clocks) (r : NotReadyReason) (t : Option ℕ) (g : Bool) (b : Option ℕ)
      (s : OrderbookState)
      → Step s (mark_not_ready c r t g b s)
  ready : (c : Clocks) (t : Option ℕ) (s : OrderbookState) → Step s (mark_ready c t s).0
  receive : (t : ℕ) (s : OrderbookState) → Step s (record_message_recv t s)
  age : (now : ℕ) (s : OrderbookState) → Step s (book_age_ns now s).0
  check : (s : OrderbookState) → Step s (validate s).0
  bid : (s : OrderbookState) → Step s (best_bid s).0
  ask : (s : OrderbookState) → Step s (best_ask s).0
  top : (side : BookSide) (n : ℕ) (s : OrderbookState) → Step s (top_n side n s).0
  copy :
      (c : Clocks) (n : ℕ) (t : Option ℕ) (w : Option String) (s : OrderbookState)
      → Step s (copy_snapshot c n t w s).0
  clean : (s : OrderbookState) → Step s (cleanup s)

pub data Reach (s : OrderbookState) : OrderbookState → Type 0 where
  here : Reach s s
  next : {t u : OrderbookState} → Reach s t → Step t u → Reach s u

mark_ready-IsWellFormed :
    (c : Clocks) (t : Option ℕ) (s : OrderbookState)
    → IsWellFormed s
    → IsWellFormed (mark_ready c t s).0
unfolding mark_ready
mark_ready-IsWellFormed c t s h = refresh-IsWellFormed _ s (record {
  bids = h.bids;
  asks = h.asks;
  ready = λ e. cc;
  known = h.known;
  fresh = h.fresh;
  awaiting = h.awaiting;
  continuous = h.continuous;
})

age-IsWellFormed :
    (now : ℕ) (s : OrderbookState) → IsWellFormed s → IsWellFormed (book_age_ns now s).0
unfolding book_age_ns
age-IsWellFormed now s h = record {
  bids = h.bids;
  asks = h.asks;
  ready = λ e.
      let r = h.ready e in
      record {
        snapshot = r.snapshot;
        continuous = r.continuous;
        bridged = r.bridged;
        uncrossed = r.uncrossed;
        untimed = r.untimed;
      };
  known = h.known;
  fresh = h.fresh;
  awaiting = h.awaiting;
  continuous = h.continuous;
}

top_n-state :
    (side : BookSide) (n : ℕ) (s : OrderbookState) → IsWellFormed s → (top_n side n s).0 ≡ s
unfolding top_n
top_n-state BookSide.bid_side n s h = ensure-eq s h.bids.indexed h.asks.indexed
top_n-state BookSide.ask_side n s h = ensure-eq s h.bids.indexed h.asks.indexed

pub copy_snapshot-state :
    (c : Clocks) (n : ℕ) (t : Option ℕ) (w : Option String) (s : OrderbookState)
    → IsWellFormed s
    → (copy_snapshot c n t w s).0 ≡ s
unfolding copy_snapshot
copy_snapshot-state c n t w s h = ensure-eq s h.bids.indexed h.asks.indexed

-- Every call of a method keeps a well-formed state well formed.
pub Step-IsWellFormed : {s t : OrderbookState} → Step s t → IsWellFormed s → IsWellFormed t
unfolding best_bid best_ask
Step-IsWellFormed (snapshot c m s) h = apply_snapshot-IsWellFormed c m s h
Step-IsWellFormed (delta c d s) h = apply_delta-IsWellFormed c d s h
Step-IsWellFormed (not_ready c r t g b s) h = mark_not_ready-IsWellFormed c r t g b s h.bids h.asks
Step-IsWellFormed (ready c t s) h = mark_ready-IsWellFormed c t s h
Step-IsWellFormed (receive t s) h = received-IsWellFormed t s h
Step-IsWellFormed (age now s) h = age-IsWellFormed now s h
Step-IsWellFormed (check s) h = rw (validate-state s h.bids.indexed h.asks.indexed) h
Step-IsWellFormed (bid s) h = rw (ensure-eq s h.bids.indexed h.asks.indexed) h
Step-IsWellFormed (ask s) h = rw (ensure-eq s h.bids.indexed h.asks.indexed) h
Step-IsWellFormed (top side n s) h = rw (top_n-state side n s h) h
Step-IsWellFormed (copy c n t w s) h = rw (copy_snapshot-state c n t w s h) h
Step-IsWellFormed (clean s) h = cleanup-IsWellFormed s

-- Whatever methods are called on a new state, in whatever order and with whatever arguments, the
-- price index of each side is the sorted list of its prices, all prices and sizes are positive,
-- and a state that is ready has a snapshot, a continuous sequence, and a best bid below a best ask.
pub Reach-IsWellFormed :
    (c : Clocks) (symbol : String) (w : ℕ) {t : OrderbookState}
    → Reach (init c symbol w) t
    → IsWellFormed t
Reach-IsWellFormed c symbol w here = init-IsWellFormed c symbol w
Reach-IsWellFormed c symbol w (next r st) = Step-IsWellFormed st (Reach-IsWellFormed c symbol w r)

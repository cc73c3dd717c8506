-- ===== src/Orderbook/Recovery.antt =====
-- Streams of snapshots and deltas after a gap in the update ids.
use somethingtrade.Prelude.{
  ℕ, ◌≤◌, ◌≡◌, refl, false, Option, none, some, List, [], ◌∷◌, arith, All, subst,
}
use somethingtrade.Orderbook.Types.{
  OrderbookState, OrderbookApplyResult, Clocks, SnapshotMessage, DeltaMessage, NotReadyReason,
  SideBook,
}
use somethingtrade.Orderbook.State.{record_message_recv, mark_not_ready}
use somethingtrade.Orderbook.Updates.{apply_snapshot, apply_delta, before_boundary}
use somethingtrade.Orderbook.Outcome.{
  DeltaOutcome, early, duplicate, closed, applied, apply_delta-Outcome, SnapshotOutcome, refused,
  invalid, loaded, apply_snapshot-Outcome,
}
use somethingtrade.Orderbook.Aging.{Aged, record_ready_false_age-Aged}
use somethingtrade.Orderbook.Sequence.{Blocked}

pub data Message : Type 0 where
  snapshot : Clocks → SnapshotMessage → Message
  delta : Clocks → DeltaMessage → Message

unfoldable pub handle : Message → OrderbookState → OrderbookState
handle (snapshot c m) s = (apply_snapshot c m s).0
handle (delta c d) s = (apply_delta c d s).0

unfoldable pub feed : List Message → OrderbookState → OrderbookState
feed [] s = s
feed (m ∷ ms) s = feed ms (handle m s)

-- A delta, or a snapshot that is not newer than the boundary.
abbrev pub IsStale : ℕ → Message → Type 0
IsStale boundary (snapshot c m) = m.last_update_id ≤ boundary
IsStale boundary (delta c d) = Unit

-- The state is blocked, with the given sides of the book.
abbrev pub Held : ℕ → SideBook → SideBook → OrderbookState → Type 0
Held boundary bids asks s = Blocked boundary s × (s.bids ≡ bids) × (s.asks ≡ asks)

module _ (b : ℕ) (bids asks : SideBook) where
  Aged-Held : {s t : OrderbookState} → Aged s t → Held b bids asks s → Held b bids asks t
  Aged-Held a h = rw a.same (
    record {
      snapshot_ready = h.0.snapshot_ready;
      ready_to_emit = h.0.ready_to_emit;
      required = h.0.required;
    },
    h.1,
    h.2,
  )

  received-Held :
      (t : ℕ) (s : OrderbookState) → Held b bids asks s → Held b bids asks (record_message_recv t s)
  unfolding record_message_recv
  received-Held t s h = (
    record {
      snapshot_ready = h.0.snapshot_ready;
      ready_to_emit = h.0.ready_to_emit;
      required = h.0.required;
    },
    h.1,
    h.2,
  )

  invalid-Held :
      (c : Clocks) (r : NotReadyReason) (t : Option ℕ) (s : OrderbookState)
      → Held b bids asks s
      → Held b bids asks (mark_not_ready c r t false none s)
  unfolding mark_not_ready
  invalid-Held c r t s h =
      Aged-Held (record_ready_false_age-Aged _ _)
        (record { snapshot_ready = refl; ready_to_emit = refl; required = h.0.required }, h.1, h.2)

  delta-Held :
      {c : Clocks} {d : DeltaMessage} {s : OrderbookState}
      {out : OrderbookState × OrderbookApplyResult}
      → DeltaOutcome c d s out
      → Held b bids asks s
      → Held b bids asks out.0
  delta-Held (early why e a st) h = rw e (Aged-Held (record_ready_false_age-Aged _ _) h)
  delta-Held (duplicate last r l o e a st) h = cc h.0.snapshot_ready
  delta-Held (closed last reason r l o n e a st su) h = cc h.0.snapshot_ready
  delta-Held (applied last r l g eb ea e a st) h = cc h.0.snapshot_ready

  snapshot-Held :
      {c : Clocks} {m : SnapshotMessage} {s : OrderbookState}
      {out : OrderbookState × OrderbookApplyResult}
      → m.last_update_id ≤ b
      → SnapshotOutcome c m s out
      → Held b bids asks s
      → Held b bids asks out.0
  snapshot-Held o (refused w e a) h = rw e h
  snapshot-Held o (invalid n e a) h = rw e (invalid-Held _ _ _ _ h)
  snapshot-Held {m = m} o (loaded g f eb ea e a) h =
      let late : before_boundary (some b) m.last_update_id ≡ false =
        subst (λ r. before_boundary r m.last_update_id ≡ false) h.0.required f in
      absurd (ground arith)

  handle-Held :
      (m : Message) (s : OrderbookState)
      → IsStale b m
      → Held b bids asks s
      → Held b bids asks (handle m s)
  unfolding handle
  handle-Held (snapshot c m) s o h =
      snapshot-Held o (apply_snapshot-Outcome c m s) (received-Held m.local_recv_monotonic_ns s h)
  handle-Held (delta c d) s o h =
      delta-Held (apply_delta-Outcome c d s) (received-Held d.local_recv_monotonic_ns s h)

  feed-Held :
      (ms : List Message) (s : OrderbookState)
      → All (IsStale b) ms
      → Held b bids asks s
      → Held b bids asks (feed ms s)
  unfolding feed
  feed-Held [] s o h = h
  feed-Held (m ∷ ms) s o h = feed-Held ms (handle m s) o.1 (handle-Held m s o.0 h)

-- While a state is blocked at a boundary, no run of deltas, and of snapshots whose ids do not pass
-- the boundary, makes it ready, gives it a snapshot, moves the boundary, or changes its book.
pub Blocked-until_fresh :
    (boundary : ℕ) (ms : List Message) (s : OrderbookState)
    → Blocked boundary s
    → All (IsStale boundary) ms
    → Held boundary s.bids s.asks (feed ms s)
Blocked-until_fresh boundary ms s h o = feed-Held boundary s.bids s.asks ms s o (h, refl, refl)

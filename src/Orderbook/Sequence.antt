-- ===== src/Orderbook/Sequence.antt =====
-- Which deltas are accepted, and what a delta leaves of the state when it is and when it is not.
use somethingtrade.Prelude.{
  ℕ, ◌+◌, ◌≡◌, ◌≢◌, ◌↔◌, refl, inl, inr, Bool, true, false, Option, some, [], arith,
}
use somethingtrade.Prelude.Dict.{get}
use somethingtrade.Orderbook.Types.{
  OrderbookState, OrderbookApplyResult, Clocks, NotReadyReason, DeltaMessage, Status,
  delta_before_snapshot,
}
use somethingtrade.Orderbook.Levels.{parse_levels}
use somethingtrade.Orderbook.State.{record_message_recv, mark_not_ready}
use somethingtrade.Orderbook.Updates.{apply_book, apply_delta}
use somethingtrade.Orderbook.Sound.{get-apply_levels, last_size, written, parse_levels-ArePriced}
use somethingtrade.Orderbook.Outcome.{
  Continues, DeltaOutcome, early, duplicate, closed, applied, apply_delta-Outcome,
}
use somethingtrade.Orderbook.WellFormed.{IsWellFormed, applied-IsSound, received-IsWellFormed}
use somethingtrade.Orderbook.Aging.{Aged, record_ready_false_age-Aged}
use somethingtrade.Orderbook.Refresh.{refresh-Refreshed, Refreshed}

-- The delta continues the book of a state with a snapshot, and its levels are all good.
abbrev pub IsAcceptable : DeltaMessage → OrderbookState → Type 0
IsAcceptable d s =
    (last : ℕ) × (s.snapshot_ready ≡ true)
    × (s.last_update_id ≡ some last)
    × Continues d s last
    × ((parse_levels true d.bids).1 ≡ [])
    × ((parse_levels true d.asks).1 ≡ [])

received_same :
    (t : ℕ) (d : DeltaMessage) (s : OrderbookState)
    → IsAcceptable d (record_message_recv t s)
    → IsAcceptable d s
unfolding record_message_recv
received_same t d s h = h

same_received :
    (t : ℕ) (d : DeltaMessage) (s : OrderbookState)
    → IsAcceptable d s
    → IsAcceptable d (record_message_recv t s)
unfolding record_message_recv
same_received t d s h = h

accepted-IsAcceptable :
    {c : Clocks} {d : DeltaMessage} {s : OrderbookState}
    {out : OrderbookState × OrderbookApplyResult}
    → DeltaOutcome c d s out
    → out.1.accepted ≡ true
    → IsAcceptable d s
accepted-IsAcceptable (early why e a st) h = cc
accepted-IsAcceptable (duplicate last r l o e a st) h = cc
accepted-IsAcceptable (closed last reason r l o n e a st su) h = cc
accepted-IsAcceptable (applied last r l g eb ea e a st) h = (last, r, l, g, eb, ea)

IsAcceptable-accepted :
    {c : Clocks} {d : DeltaMessage} {s : OrderbookState}
    {out : OrderbookState × OrderbookApplyResult}
    → DeltaOutcome c d s out
    → IsAcceptable d s
    → out.1.accepted ≡ true
IsAcceptable-accepted (early (inl r) e a st) (last, r', l, g, eb, ea) = cc
IsAcceptable-accepted (early (inr u) e a st) (last, r', l, g, eb, ea) = cc
IsAcceptable-accepted (duplicate last r l o e a st) (last', r', l', g, eb, ea) =
    let same : last ≡ last' = ground arith in absurd (let h = g.0 in omega arith)
IsAcceptable-accepted (closed last reason r l o n e a st su) (last', r', l', g, eb, ea) =
    let same : last' ≡ last = ground arith in absurd (n (rw (← same) g, eb, ea))
IsAcceptable-accepted (applied last r l g eb ea e a st) h = a

-- A delta is accepted exactly when the state has a snapshot, the delta ends after the last update
-- id, a given previous id is that id, the delta spans the first id after the snapshot or, later
-- than the first delta, starts right after the last id, and all its levels are good.
pub apply_delta-accepted_iff :
    (c : Clocks) (d : DeltaMessage) (s : OrderbookState)
    → ((apply_delta c d s).1.accepted ≡ true) ↔ IsAcceptable d s
apply_delta-accepted_iff c d s =
    let o = apply_delta-Outcome c d s in
    (
      λ h. received_same d.local_recv_monotonic_ns d s (accepted-IsAcceptable o h),
      λ h. IsAcceptable-accepted o (same_received d.local_recv_monotonic_ns d s h),
    )

-- What a rejected delta leaves alone.
pub record Untouched (s t : OrderbookState) : Type 0 where
  pub bids : t.bids ≡ s.bids
  pub asks : t.asks ≡ s.asks
  pub last_update_id : t.last_update_id ≡ s.last_update_id
  pub state_version : t.state_version ≡ s.state_version

Aged-Untouched : {s t : OrderbookState} → Aged s t → Untouched s t
Aged-Untouched a =
    rw a.same (record { bids = refl; asks = refl; last_update_id = refl; state_version = refl })

pub mark_not_ready-Untouched :
    (c : Clocks) (r : NotReadyReason) (t : Option ℕ) (g : Bool) (b : Option ℕ) (s : OrderbookState)
    → Untouched s (mark_not_ready c r t g b s)
unfolding mark_not_ready
mark_not_ready-Untouched c r t g b s =
    let u = Aged-Untouched (record_ready_false_age-Aged _ _) in
    record {
      bids = u.bids;
      asks = u.asks;
      last_update_id = u.last_update_id;
      state_version = u.state_version;
    }

rejected-Untouched :
    {c : Clocks} {d : DeltaMessage} {s : OrderbookState}
    {out : OrderbookState × OrderbookApplyResult}
    → DeltaOutcome c d s out
    → out.1.accepted ≡ false
    → Untouched s out.0
rejected-Untouched (early why e a st) h = rw e (Aged-Untouched (record_ready_false_age-Aged _ _))
rejected-Untouched (duplicate last r l o e a st) h =
    rw e (Aged-Untouched (record_ready_false_age-Aged _ _))
rejected-Untouched (closed last reason r l o n e a st su) h =
    rw e (mark_not_ready-Untouched _ _ _ _ _ _)
rejected-Untouched (applied last r l g eb ea e a st) h = cc

received-Untouched :
    (t : ℕ) (s u : OrderbookState) → Untouched (record_message_recv t s) u → Untouched s u
unfolding record_message_recv
received-Untouched t s u h = record {
  bids = h.bids;
  asks = h.asks;
  last_update_id = h.last_update_id;
  state_version = h.state_version;
}

-- A rejected delta changes neither side of the book, nor the last update id, nor the version.
pub apply_delta_rejected :
    (c : Clocks) (d : DeltaMessage) (s : OrderbookState)
    → (apply_delta c d s).1.accepted ≡ false
    → Untouched s (apply_delta c d s).0
apply_delta_rejected c d s h =
    received-Untouched _ s _ (rejected-Untouched (apply_delta-Outcome c d s) h)

-- What an accepted delta makes of the state.
pub record Advanced (d : DeltaMessage) (s t : OrderbookState) : Type 0 where
  pub bid_at :
      (price : ℕ)
      → get t.bids.levels price
        ≡ written (last_size (parse_levels true d.bids).0 price) (get s.bids.levels price)
  pub ask_at :
      (price : ℕ)
      → get t.asks.levels price
        ≡ written (last_size (parse_levels true d.asks).0 price) (get s.asks.levels price)
  pub last_update_id : t.last_update_id ≡ some d.final_update_id
  pub state_version : t.state_version ≡ s.state_version + 1
  pub generation : t.generation ≡ s.generation
  pub bridged : t.awaiting_first_delta_after_snapshot ≡ false
  pub snapshot_ready : t.snapshot_ready ≡ s.snapshot_ready

Refreshed-Advanced :
    (d : DeltaMessage) {s t u : OrderbookState} → Refreshed t u → Advanced d s t → Advanced d s u
Refreshed-Advanced d r h = rw r.same (record {
  bid_at = h.bid_at;
  ask_at = h.ask_at;
  last_update_id = h.last_update_id;
  state_version = h.state_version;
  generation = h.generation;
  bridged = h.bridged;
  snapshot_ready = h.snapshot_ready;
})

apply_book-Advanced :
    (d : DeltaMessage) (s : OrderbookState)
    → IsWellFormed s
    → Advanced d s (apply_book d (parse_levels true d.bids).0 (parse_levels true d.asks).0 s)
unfolding apply_book
apply_book-Advanced d s h =
    Refreshed-Advanced d
      (refresh-Refreshed d.local_recv_monotonic_ns _
        (applied-IsSound s.bids (parse_levels true d.bids).0 (parse_levels-ArePriced true d.bids)
          h.bids)
        (applied-IsSound s.asks (parse_levels true d.asks).0 (parse_levels-ArePriced true d.asks)
          h.asks))
      (record {
        bid_at = get-apply_levels s.bids (parse_levels true d.bids).0;
        ask_at = get-apply_levels s.asks (parse_levels true d.asks).0;
        last_update_id = refl;
        state_version = refl;
        generation = refl;
        bridged = refl;
        snapshot_ready = refl;
      })

accepted-Advanced :
    {c : Clocks} {d : DeltaMessage} {s : OrderbookState}
    {out : OrderbookState × OrderbookApplyResult}
    → IsWellFormed s
    → DeltaOutcome c d s out
    → out.1.accepted ≡ true
    → Advanced d s out.0
accepted-Advanced h (early why e a st) t = cc
accepted-Advanced h (duplicate last r l o e a st) t = cc
accepted-Advanced h (closed last reason r l o n e a st su) t = cc
accepted-Advanced h (applied last r l g eb ea e a st) t = rw e (apply_book-Advanced _ _ h)

received-Advanced :
    (t : ℕ) (d : DeltaMessage) (s u : OrderbookState)
    → Advanced d (record_message_recv t s) u
    → Advanced d s u
unfolding record_message_recv
received-Advanced t d s u h = record {
  bid_at = h.bid_at;
  ask_at = h.ask_at;
  last_update_id = h.last_update_id;
  state_version = h.state_version;
  generation = h.generation;
  bridged = h.bridged;
  snapshot_ready = h.snapshot_ready;
}

-- On a well-formed state an accepted delta sets each price to the last size that its levels give it
-- (zero deletes the price), keeps the prices that it does not mention, sets the last update id to
-- its final id, and counts one version up in the same generation.
pub apply_delta_accepted :
    (c : Clocks) (d : DeltaMessage) (s : OrderbookState)
    → IsWellFormed s
    → (apply_delta c d s).1.accepted ≡ true
    → Advanced d s (apply_delta c d s).0
apply_delta_accepted c d s h t = received-Advanced _ d s _ (
    accepted-Advanced (received-IsWellFormed d.local_recv_monotonic_ns s h)
      (apply_delta-Outcome c d s) t)

-- What a delta leaves that does not continue the book, or that has a bad level.
pub record Blocked (boundary : ℕ) (s : OrderbookState) : Type 0 where
  pub snapshot_ready : s.snapshot_ready ≡ false
  pub ready_to_emit : s.ready_to_emit ≡ false
  pub required : s.required_fresh_snapshot_after_update_id ≡ some boundary

Aged-Blocked :
    (b g : ℕ) {s t : OrderbookState}
    → Aged s t
    → Blocked b s × (s.generation ≡ g)
    → Blocked b t × (t.generation ≡ g)
Aged-Blocked b g a h = rw a.same (
  record {
    snapshot_ready = h.0.snapshot_ready;
    ready_to_emit = h.0.ready_to_emit;
    required = h.0.required;
  },
  h.1,
)

closed-Blocked :
    (c : Clocks) (r : NotReadyReason) (t : Option ℕ) (b : ℕ) (s : OrderbookState)
    → Blocked b (mark_not_ready c r t true (some b) s)
      × ((mark_not_ready c r t true (some b) s).generation ≡ s.generation + 1)
unfolding mark_not_ready
closed-Blocked c r t b s =
    Aged-Blocked b (s.generation + 1) (record_ready_false_age-Aged _ _)
      (record { snapshot_ready = refl; ready_to_emit = refl; required = refl }, refl)

rejected-Blocked :
    {c : Clocks} {d : DeltaMessage} {s : OrderbookState}
    {out : OrderbookState × OrderbookApplyResult}
    → DeltaOutcome c d s out
    → out.1.accepted ≡ false
    → out.1.status ≢ delta_before_snapshot
    → out.1.status ≢ Status.duplicate_update
    → Blocked d.final_update_id out.0 × (out.0.generation ≡ s.generation + 1)
rejected-Blocked (early why e a st) t n m = absurd (n st)
rejected-Blocked (duplicate last r l o e a st) t n m = absurd (m st)
rejected-Blocked (closed last reason r l o n e a st su) t _ _ = rw e (closed-Blocked _ _ _ _ _)
rejected-Blocked (applied last r l g eb ea e a st) t n m = cc

received-generation :
    (t : ℕ) (b : ℕ) (s u : OrderbookState)
    → Blocked b u × (u.generation ≡ (record_message_recv t s).generation + 1)
    → Blocked b u × (u.generation ≡ s.generation + 1)
unfolding record_message_recv
received-generation t b s u h = h

-- A delta that is rejected, and neither for coming before a snapshot nor as a duplicate, leaves a
-- state with no snapshot, not ready, in the next generation, and with the delta's final id as the
-- boundary that the next snapshot must pass.
pub apply_delta_fail_closed :
    (c : Clocks) (d : DeltaMessage) (s : OrderbookState)
    → (apply_delta c d s).1.accepted ≡ false
    → (apply_delta c d s).1.status ≢ delta_before_snapshot
    → (apply_delta c d s).1.status ≢ Status.duplicate_update
    → Blocked d.final_update_id (apply_delta c d s).0
      × ((apply_delta c d s).0.generation ≡ s.generation + 1)
apply_delta_fail_closed c d s t n m =
    received-generation d.local_recv_monotonic_ns d.final_update_id s _
      (rejected-Blocked (apply_delta-Outcome c d s) t n m)

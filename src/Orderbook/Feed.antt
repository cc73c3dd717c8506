-- ===== src/Orderbook/Feed.antt =====
-- Runs of messages over one `OrderbookState`: a snapshot and the deltas that follow it.
use somethingtrade.Prelude.{
  ℕ, ◌+◌, ◌<◌, ◌≤◌, ◌≡◌, refl, ap, sym, ◌∙◌, true, false, some, List, [], ◌∷◌, ◌++◌, arith, subst,
}
use somethingtrade.Prelude.Dict.{get}
use somethingtrade.Orderbook.Types.{
  OrderbookState, OrderbookApplyResult, Clocks, SnapshotMessage, DeltaMessage, ParsedLevel,
}
use somethingtrade.Orderbook.Levels.{parse_levels}
use somethingtrade.Orderbook.Side.{rebuild_prices}
use somethingtrade.Orderbook.State.{record_message_recv, rebuild_price_indexes}
use somethingtrade.Orderbook.Updates.{apply_snapshot, apply_delta, bridges, load_book}
use somethingtrade.Orderbook.Sound.{last_size, written, written-append, written-nil, get-levels_of}
use somethingtrade.Orderbook.Outcome.{
  SnapshotOutcome, refused, invalid, loaded, apply_snapshot-Outcome,
}
use somethingtrade.Orderbook.WellFormed.{IsWellFormed}
use somethingtrade.Orderbook.Aging.{Aged, record_ready_false_age-Aged}
use somethingtrade.Orderbook.Reach.{apply_delta-IsWellFormed, apply_snapshot-IsWellFormed}
use somethingtrade.Orderbook.Sequence.{apply_delta_accepted, apply_delta-accepted_iff}

-- A run of deltas, each with the clock readings of its call.
abbrev pub Deltas : Type 0
Deltas = List (Clocks × DeltaMessage)

unfoldable pub run_deltas : Deltas → OrderbookState → OrderbookState
run_deltas [] s = s
run_deltas ((c, d) ∷ ds) s = run_deltas ds (apply_delta c d s).0

abbrev pub AllAccepted : Deltas → OrderbookState → Type 0
AllAccepted [] s = Unit
AllAccepted ((c, d) ∷ ds) s =
    ((apply_delta c d s).1.accepted ≡ true) × AllAccepted ds (apply_delta c d s).0

-- The update ids go on without a hole: each delta starts at the id after the last one.
abbrev pub Chain : ℕ → Deltas → Type 0
Chain last [] = Unit
Chain last ((c, d) ∷ ds) =
    (d.first_update_id ≡ last + 1) × (last < d.final_update_id) × Chain d.final_update_id ds

-- All levels of the run, in the order in which they come.
pub bid_levels : Deltas → List ParsedLevel
bid_levels [] = []
bid_levels ((c, d) ∷ ds) = (parse_levels true d.bids).0 ++ bid_levels ds

pub ask_levels : Deltas → List ParsedLevel
ask_levels [] = []
ask_levels ((c, d) ∷ ds) = (parse_levels true d.asks).0 ++ ask_levels ds

bids_after :
    (ds : Deltas) (s : OrderbookState) (price : ℕ)
    → IsWellFormed s
    → AllAccepted ds s
    → (get (run_deltas ds s).bids.levels price
        ≡ written (last_size (bid_levels ds) price) (get s.bids.levels price))
      × (get (run_deltas ds s).asks.levels price
          ≡ written (last_size (ask_levels ds) price) (get s.asks.levels price))
unfolding run_deltas bid_levels ask_levels
bids_after [] s price h a = (sym (written-nil price _), sym (written-nil price _))
bids_after ((c, d) ∷ ds) s price h (a, rest) =
    let step = apply_delta_accepted c d s h a in
    let (b, k) =
      bids_after ds (apply_delta c d s).0 price (apply_delta-IsWellFormed c d s h) rest in
    (
      b
          ∙ ap (written (last_size (bid_levels ds) price)) (step.bid_at price)
          ∙ sym (written-append (parse_levels true d.bids).0 (bid_levels ds) price _),
      k
          ∙ ap (written (last_size (ask_levels ds) price)) (step.ask_at price)
          ∙ sym (written-append (parse_levels true d.asks).0 (ask_levels ds) price _),
    )

Chain-after :
    (ds : Deltas) (s : OrderbookState) (last : ℕ)
    → IsWellFormed s
    → AllAccepted ds s
    → s.last_update_id ≡ some last
    → s.awaiting_first_delta_after_snapshot ≡ false
    → Chain last ds
Chain-after [] s last h a e w = tt
Chain-after ((c, d) ∷ ds) s last h (a, rest) e w =
    let (last', r, e', g, eb, ea) = (apply_delta-accepted_iff c d s).0 a in
    let same : last' ≡ last = ground arith in
    let step = apply_delta_accepted c d s h a in
    (
      g.3 w ∙ ap (λ (n : ℕ). n + 1) same,
      subst (λ n. n < d.final_update_id) same g.0,
      Chain-after ds (apply_delta c d s).0 d.final_update_id (apply_delta-IsWellFormed c d s h) rest
          step.last_update_id step.bridged,
    )

-- What an accepted snapshot makes of the state.
pub record Loaded (m : SnapshotMessage) (s t : OrderbookState) : Type 0 where
  pub bid_at : (price : ℕ) → get t.bids.levels price ≡ last_size (parse_levels false m.bids).0 price
  pub ask_at : (price : ℕ) → get t.asks.levels price ≡ last_size (parse_levels false m.asks).0 price
  pub last_update_id : t.last_update_id ≡ some m.last_update_id
  pub snapshot_last_update_id : t.snapshot_last_update_id ≡ some m.last_update_id
  pub awaiting : t.awaiting_first_delta_after_snapshot ≡ true
  pub snapshot_ready : t.snapshot_ready ≡ true
  pub ready_to_emit : t.ready_to_emit ≡ false
  pub state_version : t.state_version ≡ s.state_version + 1

Aged-Loaded :
    (m : SnapshotMessage) {s t u : OrderbookState} → Aged t u → Loaded m s t → Loaded m s u
Aged-Loaded m a h = rw a.same (record {
  bid_at = h.bid_at;
  ask_at = h.ask_at;
  last_update_id = h.last_update_id;
  snapshot_last_update_id = h.snapshot_last_update_id;
  awaiting = h.awaiting;
  snapshot_ready = h.snapshot_ready;
  ready_to_emit = h.ready_to_emit;
  state_version = h.state_version;
})

load_book-Loaded :
    (c : Clocks) (m : SnapshotMessage) (s : OrderbookState)
    → Loaded m s (load_book c m (parse_levels false m.bids).0 (parse_levels false m.asks).0 s)
unfolding load_book rebuild_price_indexes rebuild_prices
load_book-Loaded c m s = Aged-Loaded m (record_ready_false_age-Aged _ _) (record {
  bid_at = get-levels_of (parse_levels false m.bids).0;
  ask_at = get-levels_of (parse_levels false m.asks).0;
  last_update_id = refl;
  snapshot_last_update_id = refl;
  awaiting = refl;
  snapshot_ready = refl;
  ready_to_emit = refl;
  state_version = refl;
})

accepted-Loaded :
    {c : Clocks} {m : SnapshotMessage} {s : OrderbookState}
    {out : OrderbookState × OrderbookApplyResult}
    → SnapshotOutcome c m s out
    → out.1.accepted ≡ true
    → Loaded m s out.0
accepted-Loaded (refused w e a) t = cc
accepted-Loaded (invalid n e a) t = cc
accepted-Loaded (loaded o f eb ea e a) t = rw e (load_book-Loaded _ _ _)

received-Loaded :
    (t : ℕ) (m : SnapshotMessage) (s u : OrderbookState)
    → Loaded m (record_message_recv t s) u
    → Loaded m s u
unfolding record_message_recv
received-Loaded t m s u h = record {
  bid_at = h.bid_at;
  ask_at = h.ask_at;
  last_update_id = h.last_update_id;
  snapshot_last_update_id = h.snapshot_last_update_id;
  awaiting = h.awaiting;
  snapshot_ready = h.snapshot_ready;
  ready_to_emit = h.ready_to_emit;
  state_version = h.state_version;
}

-- An accepted snapshot replaces both sides by the last size that it gives to each price, takes its
-- id as the last update id, and waits for a first delta, not ready, one version up.
pub apply_snapshot_accepted :
    (c : Clocks) (m : SnapshotMessage) (s : OrderbookState)
    → (apply_snapshot c m s).1.accepted ≡ true
    → Loaded m s (apply_snapshot c m s).0
apply_snapshot_accepted c m s t =
    received-Loaded m.local_recv_monotonic_ns m s _
      (accepted-Loaded (apply_snapshot-Outcome c m s) t)

-- The first delta spans the id after the snapshot, and the others go on without a hole.
abbrev pub Bridged : ℕ → Deltas → Type 0
Bridged snapshot [] = Unit
Bridged snapshot ((c, d) ∷ ds) =
    (d.first_update_id ≤ snapshot + 1)
    × (snapshot + 1 ≤ d.final_update_id)
    × Chain d.final_update_id ds

Bridged-after :
    (ds : Deltas) (s : OrderbookState) (id : ℕ)
    → IsWellFormed s
    → AllAccepted ds s
    → s.snapshot_last_update_id ≡ some id
    → s.awaiting_first_delta_after_snapshot ≡ true
    → Bridged id ds
Bridged-after [] s id h a e w = tt
Bridged-after ((c, d) ∷ ds) s id h (a, rest) e w =
    let (last', r, e', g, eb, ea) = (apply_delta-accepted_iff c d s).0 a in
    let step = apply_delta_accepted c d s h a in
    let spans : bridges d (some id) ≡ true = subst (λ o. bridges d o ≡ true) e (g.2 w) in
    (
      ground arith,
      ground arith,
      Chain-after ds (apply_delta c d s).0 d.final_update_id (apply_delta-IsWellFormed c d s h) rest
          step.last_update_id step.bridged,
    )

-- From a well-formed state, after an accepted snapshot and any run of accepted deltas: the update
-- ids leave no hole, the first delta spanning the id after the snapshot, and each price of each
-- side has the last size that the snapshot and the deltas together give it, or none where that
-- size is zero or there is no such size.
pub replay_exact :
    (c : Clocks) (m : SnapshotMessage) (ds : Deltas) (s : OrderbookState) (price : ℕ)
    → IsWellFormed s
    → (apply_snapshot c m s).1.accepted ≡ true
    → AllAccepted ds (apply_snapshot c m s).0
    → Bridged m.last_update_id ds
      × (get (run_deltas ds (apply_snapshot c m s).0).bids.levels price
          ≡ written
              (last_size (bid_levels ds) price)
              (last_size (parse_levels false m.bids).0 price))
      × (get (run_deltas ds (apply_snapshot c m s).0).asks.levels price
          ≡ written
              (last_size (ask_levels ds) price)
              (last_size (parse_levels false m.asks).0 price))
replay_exact c m ds s price h t a =
    let l = apply_snapshot_accepted c m s t in
    let h' = apply_snapshot-IsWellFormed c m s h in
    let (b, k) = bids_after ds (apply_snapshot c m s).0 price h' a in
    (
      Bridged-after ds (apply_snapshot c m s).0 m.last_update_id h' a l.snapshot_last_update_id
          l.awaiting,
      b ∙ ap (written (last_size (bid_levels ds) price)) (l.bid_at price),
      k ∙ ap (written (last_size (ask_levels ds) price)) (l.ask_at price),
    )

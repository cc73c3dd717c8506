-- ===== src/Orderbook/Refresh.antt =====
-- `_refresh_ready_to_emit` on a sound book: when the state is ready, and what else changes.
use somethingtrade.Orderbook.Aging.{record_ready_false_age-Aged}
use somethingtrade.Orderbook.WellFormed.{IsSound, IsWellFormed, Aged-IsWellFormed}
use somethingtrade.Prelude.{
  ℕ, ◌≡◌, refl, inl, inr, Bool, true, false, not, ◌&&◌, Option, none, some, List, [], ◌∷◌, arith,
  Bool-cases, head?, get_last?,
}
use somethingtrade.Orderbook.Types.{OrderbookState, NotReadyReason, Reason, quality_gate_failed}
use somethingtrade.Orderbook.State.{
  refresh_ready_to_emit, validate, best_bid, best_ask, is_empty, or_else,
}
use somethingtrade.Orderbook.Index.{IsIndexed}
use somethingtrade.Orderbook.Best.{Uncrossed, validate-state, validate-nil_iff, ensure-eq}

best_bid-eq :
    (s : OrderbookState)
    → IsIndexed s.bids
    → IsIndexed s.asks
    → (best_bid s).1 ≡ get_last? s.bids.prices_asc
unfolding best_bid
best_bid-eq s b a = rw (ensure-eq s b a)

best_ask-eq :
    (s : OrderbookState)
    → IsIndexed s.bids
    → IsIndexed s.asks
    → (best_ask s).1 ≡ head? s.asks.prices_asc
unfolding best_ask
best_ask-eq s b a = rw (ensure-eq s b a)

is_empty-nil {ℓ} : {A : Type ℓ} (l : List A) → is_empty l ≡ true → l ≡ []
unfolding is_empty
is_empty-nil [] h = refl
is_empty-nil (x ∷ l) h = cc

-- On a sound book, no error means that the best prices are there and apart.
pub validate-Uncrossed :
    (s : OrderbookState)
    → IsSound s.bids
    → IsSound s.asks
    → is_empty (validate s).1 ≡ true
    → Uncrossed (get_last? s.bids.prices_asc) (head? s.asks.prices_asc)
validate-Uncrossed s b a e =
    let u =
      (validate-nil_iff s b.indexed a.indexed b.positive a.positive).0
        (is_empty-nil (validate s).1 e) in
    rw (← best_bid-eq s b.indexed a.indexed, ← best_ask-eq s b.indexed a.indexed) u

abbrev ready_test : OrderbookState → List Reason → Bool
ready_test s errors =
    s.snapshot_ready
    && (s.sequence_continuous && (not s.awaiting_first_delta_after_snapshot && is_empty errors))

abbrev not_ready_yet : ℕ → OrderbookState → OrderbookState
not_ready_yet now s = record s {
  ready_to_emit = false;
  ready_false_since_monotonic_ns = some (or_else s.ready_false_since_monotonic_ns now);
  last_not_ready_reason = some (or_else s.last_not_ready_reason quality_gate_failed);
}

pub refresh-IsWellFormed :
    (now : ℕ) (s : OrderbookState)
    → IsWellFormed (record s { ready_to_emit = false })
    → IsWellFormed (refresh_ready_to_emit now s)
unfolding refresh_ready_to_emit
refresh-IsWellFormed now s h =
    rw (validate-state s h.bids.indexed h.asks.indexed)
      (elim (Bool-cases (ready_test s (validate s).1)) [
        | inl on ↦ rw on (record {
          bids = h.bids;
          asks = h.asks;
          ready = λ e. record {
            snapshot = ground arith;
            continuous = ground arith;
            bridged = ground arith;
            uncrossed = validate-Uncrossed s h.bids h.asks (ground arith);
            untimed = refl;
          };
          known = h.known;
          fresh = h.fresh;
          awaiting = h.awaiting;
          continuous = h.continuous;
        })
        | inr off ↦ rw off (
            Aged-IsWellFormed (record_ready_false_age-Aged now _) (record {
              bids = h.bids;
              asks = h.asks;
              ready = λ e. cc;
              known = h.known;
              fresh = h.fresh;
              awaiting = h.awaiting;
              continuous = h.continuous;
            }))
      ])

-- A refresh sets the readiness, its reason and its timing, and nothing else.
pub record Refreshed (s t : OrderbookState) : Type 0 where
  pub ready : Bool
  pub since : Option ℕ
  pub reason : Option NotReadyReason
  pub duration : ℕ
  pub warnings : ℕ
  pub same : t ≡ record s {
    ready_to_emit = ready;
    ready_false_since_monotonic_ns = since;
    last_not_ready_reason = reason;
    ready_to_emit_false_duration_ns_max = duration;
    ready_to_emit_false_warning_count = warnings;
  }

pub refresh-Refreshed :
    (now : ℕ) (s : OrderbookState)
    → IsSound s.bids
    → IsSound s.asks
    → Refreshed s (refresh_ready_to_emit now s)
unfolding refresh_ready_to_emit
refresh-Refreshed now s b a =
    rw (validate-state s b.indexed a.indexed) (elim (Bool-cases (ready_test s (validate s).1)) [
      | inl on ↦ rw on (record {
        ready = true;
        since = none;
        reason = none;
        duration = s.ready_to_emit_false_duration_ns_max;
        warnings = s.ready_to_emit_false_warning_count;
        same = refl;
      })
      | inr off ↦
          let aged = record_ready_false_age-Aged now (not_ready_yet now s) in
          rw off (record {
            ready = false;
            since = some (or_else s.ready_false_since_monotonic_ns now);
            reason = some (or_else s.last_not_ready_reason quality_gate_failed);
            duration = aged.duration;
            warnings = aged.warnings;
            same = aged.same;
          })
    ])

-- A well-formed state that is ready passes its own validation.
pub ready-validate :
    (s : OrderbookState) → IsWellFormed s → s.ready_to_emit ≡ true → (validate s).1 ≡ []
ready-validate s h r =
    (validate-nil_iff s h.bids.indexed h.asks.indexed h.bids.positive h.asks.positive).1 (
      rw (best_bid-eq s h.bids.indexed h.asks.indexed, best_ask-eq s h.bids.indexed h.asks.indexed)
        (h.ready r).uncrossed)

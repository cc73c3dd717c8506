-- ===== src/Quality/Gate.antt =====
-- Which samples the quality checks let through.
use somethingtrade.Prelude.{
  ℕ, ◌+◌, ◌≤◌, ◌≡◌, ◌↔◌, refl, Bool, true, false, not, ◌||◌, Option, none, some, List, [], ◌∷◌,
  ◌++◌, arith, ◌==◌, append-nil_parts,
}
use somethingtrade.Prelude.Int.{ℤ, pos, negsuc}
use somethingtrade.Orderbook.Types.{OrderbookState, OrderbookSnapshot, Reason}
use somethingtrade.Orderbook.Reasons.{sorted_set, sorted_set-nil_iff}
use somethingtrade.Orderbook.State
use somethingtrade.Orderbook.Sound.{IsPositive}
use somethingtrade.Orderbook.Best.{validate-state}
use somethingtrade.Orderbook.WellFormed.{IsWellFormed}
use somethingtrade.Orderbook.Refresh.{ready-validate}
use somethingtrade.Quality.{
  OrderbookQualityValidator, Observed, validate, collected_errors, state_errors, top_level_errors,
  diff_of, exceeds, age_of, is_stale,
}

abbrev pub WithinLag : ℕ → Option ℕ → Type 0
WithinLag limit none = Unit
WithinLag limit (some lag) = lag ≤ limit

-- The book is no older than the limit, if both times are known.
abbrev pub IsFresh : ℕ → Option ℕ → Option ℕ → Type 0
IsFresh limit none updated = Unit
IsFresh limit (some now) none = Unit
IsFresh limit (some now) (some updated) = now ≤ updated + limit

-- A reported price is the computed one, where both are given.
abbrev pub Agrees : Option ℕ → Option ℤ → Type 0
Agrees none reported = Unit
Agrees (some best) none = Unit
Agrees (some best) (some reported) = pos best ≡ reported

-- What a snapshot beside a well-formed state must meet.
pub record Passes (v : OrderbookQualityValidator) (snapshot : OrderbookSnapshot)
    (s : OrderbookState) (o : Observed) : Type 0 where
  pub ready : s.ready_to_emit ≡ true
  pub version : snapshot.snapshot_version ≡ snapshot.state_version
  pub positive : IsPositive (snapshot.bids_top_n ++ snapshot.asks_top_n)
  pub fresh : IsFresh v.stale_after_ns o.now_monotonic_ns snapshot.last_book_update_monotonic_ns
  pub lag : WithinLag v.queue_lag_severe_ns o.queue_lag_ns
  pub bid : Agrees snapshot.best_bid o.reported_best_bid
  pub ask : Agrees snapshot.best_ask o.reported_best_ask

flag-nil : (b : Bool) (r : Reason) → (State.flag b r ≡ []) ↔ (b ≡ false)
flag-nil true r = (λ h. cc, λ h. cc)
flag-nil false r = (λ h. refl, λ h. refl)

lag_iff : (limit : ℕ) (lag : Option ℕ) → (exceeds limit lag ≡ false) ↔ WithinLag limit lag
lag_iff limit none = (λ h. tt, λ h. refl)
lag_iff limit (some lag) = (λ h. ground arith, λ h. ground arith)

fresh_iff :
    (limit : ℕ) (now updated : Option ℕ)
    → (is_stale limit (age_of now updated) ≡ false) ↔ IsFresh limit now updated
fresh_iff limit none updated = (λ h. tt, λ h. refl)
fresh_iff limit (some now) none = (λ h. tt, λ h. refl)
fresh_iff limit (some now) (some updated) = (λ h. ground arith, λ h. ground arith)

Agrees-iff :
    (best : Option ℕ) (reported : Option ℤ)
    → (exceeds 0 (diff_of best reported) ≡ false) ↔ Agrees best reported
Agrees-iff none reported = (λ h. tt, λ h. refl)
Agrees-iff (some best) none = (λ h. tt, λ h. refl)
Agrees-iff (some best) (some (pos n)) = (λ h. ground arith, λ h. ground arith)
Agrees-iff (some best) (some (negsuc n)) = (λ h. ground arith, λ h. cc)

top_iff : (levels : List (ℕ × ℕ)) → (top_level_errors levels ≡ []) ↔ IsPositive levels
unfolding top_level_errors
top_iff [] = (λ h. tt, λ h. refl)
top_iff ((price, size) ∷ levels) =
    (λ h. ground (arith, (top_iff levels).0), λ h. ground (arith, (top_iff levels).1))

both-nil {ℓ} : {A : Type ℓ} (xs ys : List A) → (xs ++ ys ≡ []) ↔ ((xs ≡ []) × (ys ≡ []))
both-nil xs ys = (append-nil_parts xs ys, λ h. rw (h.0, h.1))

ready_flags : Bool → Bool → Bool → List Reason
ready_flags snapshot ready continuous =
    State.flag (not snapshot || not ready) Reason.sample_before_book_ready
    ++ State.flag (not continuous) Reason.sequence_gap_or_reset

ready_flags-nil : (a b c : Bool) → (ready_flags a b c ≡ []) ↔ ((a ≡ true) × (b ≡ true) × (c ≡ true))
unfolding ready_flags
ready_flags-nil true true true = (λ h. (refl, refl, refl), λ h. refl)
ready_flags-nil true true false = (λ h. cc, λ h. cc)
ready_flags-nil true false c = (λ h. cc, λ h. cc)
ready_flags-nil false b c = (λ h. cc, λ h. cc)

state_errors_iff :
    (snapshot : OrderbookSnapshot) (s : OrderbookState)
    → IsWellFormed s
    → ((state_errors snapshot (some s)).1 ≡ []) ↔ (s.ready_to_emit ≡ true)
unfolding state_errors ready_flags
state_errors_iff snapshot s h =
    let flags = ready_flags s.snapshot_ready s.ready_to_emit s.sequence_continuous in
    let iff = ready_flags-nil s.snapshot_ready s.ready_to_emit s.sequence_continuous in
    rw (validate-state s h.bids.indexed h.asks.indexed) (
      λ e. (iff.0 (append-nil_parts (State.validate s).1 flags e).1).1,
      λ r.
          (both-nil (State.validate s).1 flags).1
            (ready-validate s h r, iff.1 ((h.ready r).snapshot, r, (h.ready r).continuous)),
    )

version_iff : (a b : ℕ) → (State.flag (not (a == b)) Reason.snapshot_inconsistent ≡ []) ↔ (a ≡ b)
version_iff a b = (λ h. ground arith, λ h. ground arith)

collected_iff :
    (v : OrderbookQualityValidator) (snapshot : OrderbookSnapshot) (s : OrderbookState)
    (o : Observed)
    → IsWellFormed s
    → ((collected_errors v snapshot (some s) o).1 ≡ []) ↔ Passes v snapshot s o
unfolding collected_errors
collected_iff v snapshot s o h = (
  λ e.
      let (e0, r0) = append-nil_parts _ _ e in
      let (e1, r1) = append-nil_parts _ _ r0 in
      let (e2, r2) = append-nil_parts _ _ r1 in
      let (e3, r3) = append-nil_parts _ _ r2 in
      let (e4, r4) = append-nil_parts _ _ r3 in
      let (e5, e6) = append-nil_parts _ _ r4 in
      record {
        ready = (state_errors_iff snapshot s h).0 e0;
        version = (version_iff _ _).0 e1;
        positive = (top_iff _).0 e2;
        fresh = (fresh_iff _ _ _).0 ((flag-nil _ _).0 e3);
        lag = (lag_iff _ _).0 ((flag-nil _ _).0 e4);
        bid = (Agrees-iff _ _).0 ((flag-nil _ _).0 e5);
        ask = (Agrees-iff _ _).0 ((flag-nil _ _).0 e6);
      },
  λ p. rw (
    (state_errors_iff snapshot s h).1 p.ready,
    (version_iff _ _).1 p.version,
    (top_iff _).1 p.positive,
    (fresh_iff _ _ _).1 p.fresh,
    (lag_iff _ _).1 p.lag,
    (Agrees-iff _ _).1 p.bid,
    (Agrees-iff _ _).1 p.ask,
  ),
)

is_empty_iff {ℓ} : {A : Type ℓ} (l : List A) → (State.is_empty l ≡ true) ↔ (l ≡ [])
unfolding State.is_empty
is_empty_iff [] = (λ h. refl, λ h. refl)
is_empty_iff (x ∷ l) = (λ h. cc, λ h. cc)

-- Beside a well-formed state a snapshot is valid exactly when the state is ready to emit, the
-- snapshot's two versions agree, its top levels are positive, it is no older than the limit (if
-- both times are known), the queue lag is not severe, and each reported best price that can be
-- compared is the computed one.
pub validate-is_valid_iff :
    (v : OrderbookQualityValidator) (snapshot : OrderbookSnapshot) (s : OrderbookState)
    (o : Observed)
    → IsWellFormed s
    → ((validate v snapshot (some s) o).1.is_valid ≡ true) ↔ Passes v snapshot s o
unfolding validate
validate-is_valid_iff v snapshot s o h =
    let found = (collected_errors v snapshot (some s) o).1 in
    let c = collected_iff v snapshot s o h in
    (
      λ e. c.0 ((sorted_set-nil_iff found).0 ((is_empty_iff (sorted_set found)).0 e)),
      λ p. (is_empty_iff (sorted_set found)).1 ((sorted_set-nil_iff found).1 (c.1 p)),
    )

-- ===== src/Lifecycle/Resets.antt =====
-- What a reconnect or a resubscription does to the state.
use somethingtrade.Prelude.{
  ℕ, ◌+◌, ◌≡◌, refl, true, false, Option, none, some, Bool-cases, inl, inr,
}
use somethingtrade.Orderbook.Types.{OrderbookState, Clocks, DeltaMessage, NotReadyReason}
use somethingtrade.Orderbook.State.{mark_not_ready}
use somethingtrade.Orderbook.Updates.{apply_delta}
use somethingtrade.Orderbook.Aging.{Aged, record_ready_false_age-Aged}
use somethingtrade.Orderbook.Sequence.{apply_delta-accepted_iff}
use somethingtrade.Lifecycle.{WsLifecycleTracker, on_reconnect, on_resubscribe, reset}

-- A state without a snapshot, of the given generation, that takes no delta.
pub record IsReset (generation : ℕ) (s : OrderbookState) : Type 0 where
  pub ready_to_emit : s.ready_to_emit ≡ false
  pub snapshot_ready : s.snapshot_ready ≡ false
  pub generation_is : s.generation ≡ generation
  pub refuses : (c : Clocks) (d : DeltaMessage) → (apply_delta c d s).1.accepted ≡ false

refuses-delta :
    (c : Clocks) (d : DeltaMessage) (s : OrderbookState)
    → s.snapshot_ready ≡ false
    → (apply_delta c d s).1.accepted ≡ false
refuses-delta c d s h = elim (Bool-cases (apply_delta c d s).1.accepted) [
  | inl taken ↦ let (last, ready, e, g, eb, ea) = (apply_delta-accepted_iff c d s).0 taken in cc
  | inr refused ↦ refused
]

Aged-NotReady :
    (g : ℕ) {s t : OrderbookState}
    → Aged s t
    → (s.ready_to_emit ≡ false) × (s.snapshot_ready ≡ false) × (s.generation ≡ g)
    → (t.ready_to_emit ≡ false) × (t.snapshot_ready ≡ false) × (t.generation ≡ g)
Aged-NotReady g a h = rw a.same h

pub mark_not_ready-IsReset :
    (c : Clocks) (r : NotReadyReason) (t b : Option ℕ) (s : OrderbookState)
    → IsReset (s.generation + 1) (mark_not_ready c r t true b s)
unfolding mark_not_ready
mark_not_ready-IsReset c r t b s =
    let (ready, snapshot, generation) =
      Aged-NotReady (s.generation + 1) (record_ready_false_age-Aged _ _) (refl, refl, refl) in
    record {
      ready_to_emit = ready;
      snapshot_ready = snapshot;
      generation_is = generation;
      refuses = λ c' d. refuses-delta c' d _ snapshot;
    }

-- A reconnect or a resubscription with a state counts one reset and leaves the state without a
-- snapshot, not ready, in the next generation, so that it takes no delta.
pub on_reconnect_lem :
    (c : Clocks) (s : OrderbookState) (t : WsLifecycleTracker)
    → ((u : OrderbookState) × ((on_reconnect c (some s) t).1 ≡ some u)
        × IsReset (s.generation + 1) u
        × ((on_reconnect c (some s) t).0.state_reset_count ≡ t.state_reset_count + 1))
      × ((u : OrderbookState) × ((on_resubscribe c (some s) t).1 ≡ some u)
          × IsReset (s.generation + 1) u
          × ((on_resubscribe c (some s) t).0.state_reset_count ≡ t.state_reset_count + 1))
unfolding on_reconnect on_resubscribe reset
on_reconnect_lem c s t = (
  (_, refl, mark_not_ready-IsReset c NotReadyReason.reconnect none none s, refl),
  (_, refl, mark_not_ready-IsReset c NotReadyReason.resubscribe none none s, refl),
)

-- ===== src/Lifecycle/Counts.antt =====
-- How the lifecycle counters hang together.
use somethingtrade.Prelude.{
  Bool, true, false, if◌then◌else◌, ℕ, ◌+◌, ◌-◌, ◌≤◌, ◌≡◌, refl, ap, String, Option, none, some,
  List, [], ◌∷◌, arith, ltb, ◌<◌, Bool-cases, inl, inr,
}
use somethingtrade.Orderbook.Types.{OrderbookState, Clocks}
use somethingtrade.Lifecycle

-- The sum of the warnings of all symbols.
abbrev pub sum : List (String × ℕ) → ℕ
sum [] = 0
sum ((k, n) ∷ d) = n + sum d

set_warnings-sum :
    (d : List (String × ℕ)) (symbol : String) (n : ℕ)
    → sum (Lifecycle.set_warnings d symbol n) + Lifecycle.warnings_of d symbol ≡ sum d + n
set_warnings-sum [] symbol n = omega arith
set_warnings-sum ((k, old) ∷ d) symbol n = ground (arith, set_warnings-sum d symbol n)

-- One call of a method of the tracker.
pub data Step : Lifecycle.WsLifecycleTracker → Lifecycle.WsLifecycleTracker → Type 0 where
  connect : (t : Lifecycle.WsLifecycleTracker) → Step t (Lifecycle.on_connect t)
  disconnect : (t : Lifecycle.WsLifecycleTracker) → Step t (Lifecycle.on_disconnect t)
  reconnect :
      (c : Clocks) (s : Option OrderbookState) (t : Lifecycle.WsLifecycleTracker)
      → Step t (Lifecycle.on_reconnect c s t).0
  resubscribe :
      (c : Clocks) (s : Option OrderbookState) (t : Lifecycle.WsLifecycleTracker)
      → Step t (Lifecycle.on_resubscribe c s t).0
  loaded : (t : Lifecycle.WsLifecycleTracker) → Step t (Lifecycle.on_snapshot_loaded t)
  refresh : (t : Lifecycle.WsLifecycleTracker) → Step t (Lifecycle.on_snapshot_refresh t)
  failed : (t : Lifecycle.WsLifecycleTracker) → Step t (Lifecycle.on_snapshot_failed t)
  early_delta : (t : Lifecycle.WsLifecycleTracker) → Step t (Lifecycle.on_delta_before_snapshot t)
  early : (t : Lifecycle.WsLifecycleTracker) → Step t (Lifecycle.on_message_before_ready t)
  gap : (t : Lifecycle.WsLifecycleTracker) → Step t (Lifecycle.on_sequence_gap t)
  duplicate : (t : Lifecycle.WsLifecycleTracker) → Step t (Lifecycle.on_duplicate t)
  backpressure :
      (n : ℕ) (t : Lifecycle.WsLifecycleTracker) → Step t (Lifecycle.on_queue_backpressure n t)
  dropped : (n : ℕ) (t : Lifecycle.WsLifecycleTracker) → Step t (Lifecycle.on_queue_dropped n t)
  blocked :
      (t : Lifecycle.WsLifecycleTracker) → Step t (Lifecycle.on_sample_blocked_by_ready_guard t)
  observe :
      (s : OrderbookState) (t : Lifecycle.WsLifecycleTracker)
      → Step t (Lifecycle.observe_ready_false s t)

pub data Reach (t : Lifecycle.WsLifecycleTracker) : Lifecycle.WsLifecycleTracker → Type 0 where
  here : Reach t t
  next : {u v : Lifecycle.WsLifecycleTracker} → Reach t u → Step u v → Reach t v

-- The counters that hang together, as numbers.
pub record Coherent
    (warnings total detected skipped deltas early gaps resets reconnects resubscribes : ℕ)
    : Type 0 where
  pub warned : warnings ≡ total
  pub duplicates : detected ≡ skipped
  pub before_ready : deltas ≤ early
  pub gaps_reset : gaps ≤ resets
  pub resets_caused : resets ≤ reconnects + resubscribes + gaps

abbrev pub IsCoherent : Lifecycle.WsLifecycleTracker → Type 0
IsCoherent t =
    Coherent t.ready_to_emit_false_warning_count (sum t.symbol_ready_false_warnings)
      t.duplicate_messages_detected t.duplicate_messages_skipped t.delta_before_snapshot_count
      t.messages_before_ready_count t.sequence_gap_count t.state_reset_count t.reconnect_count
      t.resubscribe_count

new-IsCoherent : IsCoherent Lifecycle.new_tracker
unfolding Lifecycle.new_tracker
new-IsCoherent = record {
  warned = refl;
  duplicates = refl;
  before_ready = omega arith;
  gaps_reset = omega arith;
  resets_caused = omega arith;
}

more_warnings :
    (d : List (String × ℕ)) (symbol : String) (count total : ℕ)
    → Lifecycle.warnings_of d symbol < count
    → total ≡ sum d
    → total + (count - Lifecycle.warnings_of d symbol) ≡ sum (Lifecycle.set_warnings d symbol count)
more_warnings d symbol count total l e = omega (arith, set_warnings-sum d symbol count)

observe_warnings-IsCoherent :
    (symbol : String) (count : ℕ) (t : Lifecycle.WsLifecycleTracker)
    → IsCoherent t
    → IsCoherent (Lifecycle.observe_warnings symbol count t)
unfolding Lifecycle.observe_warnings
observe_warnings-IsCoherent symbol count t h =
    let previous = Lifecycle.warnings_of t.symbol_ready_false_warnings symbol in
    elim (Bool-cases (ltb previous count)) [
      | inl more ↦ rw more (record {
        warned =
            more_warnings t.symbol_ready_false_warnings symbol count
              t.ready_to_emit_false_warning_count (ground arith) h.warned;
        duplicates = h.duplicates;
        before_ready = h.before_ready;
        gaps_reset = h.gaps_reset;
        resets_caused = h.resets_caused;
      })
      | inr same ↦ rw same h
    ]

-- Other resets, reconnects and resubscriptions.
recount :
    {w s d k e f g r c b : ℕ} (r' c' b' : ℕ)
    → Coherent w s d k e f g r c b
    → r ≤ r'
    → r' ≤ c' + b' + g
    → Coherent w s d k e f g r' c' b'
recount r' c' b' h l m = record {
  warned = h.warned;
  duplicates = h.duplicates;
  before_ready = h.before_ready;
  gaps_reset = omega (arith, h.gaps_reset);
  resets_caused = m;
}

-- Every call of a method keeps the counters coherent.
Step-IsCoherent : {t u : Lifecycle.WsLifecycleTracker} → Step t u → IsCoherent t → IsCoherent u
unfolding Lifecycle.on_connect Lifecycle.on_disconnect Lifecycle.on_reconnect
    Lifecycle.on_resubscribe Lifecycle.reset Lifecycle.on_snapshot_loaded
    Lifecycle.on_snapshot_refresh Lifecycle.on_snapshot_failed Lifecycle.on_delta_before_snapshot
    Lifecycle.on_message_before_ready Lifecycle.on_sequence_gap Lifecycle.on_duplicate
    Lifecycle.on_queue_backpressure Lifecycle.on_queue_dropped
    Lifecycle.on_sample_blocked_by_ready_guard Lifecycle.observe_ready_false
Step-IsCoherent (connect t) h = h
Step-IsCoherent (disconnect t) h = h
Step-IsCoherent (reconnect c none t) h =
    recount _ _ _ h (omega arith) (omega (arith, h.resets_caused))
Step-IsCoherent (reconnect c (some s) t) h =
    recount _ _ _ h (omega arith) (omega (arith, h.resets_caused))
Step-IsCoherent (resubscribe c none t) h =
    recount _ _ _ h (omega arith) (omega (arith, h.resets_caused))
Step-IsCoherent (resubscribe c (some s) t) h =
    recount _ _ _ h (omega arith) (omega (arith, h.resets_caused))
Step-IsCoherent (loaded t) h = h
Step-IsCoherent (refresh t) h = h
Step-IsCoherent (failed t) h = h
Step-IsCoherent (early_delta t) h = record {
  warned = h.warned;
  duplicates = h.duplicates;
  before_ready = omega (arith, h.before_ready);
  gaps_reset = h.gaps_reset;
  resets_caused = h.resets_caused;
}
Step-IsCoherent (early t) h = record {
  warned = h.warned;
  duplicates = h.duplicates;
  before_ready = omega (arith, h.before_ready);
  gaps_reset = h.gaps_reset;
  resets_caused = h.resets_caused;
}
Step-IsCoherent (gap t) h = record {
  warned = h.warned;
  duplicates = h.duplicates;
  before_ready = h.before_ready;
  gaps_reset = omega (arith, h.gaps_reset);
  resets_caused = omega (arith, h.resets_caused);
}
Step-IsCoherent (duplicate t) h = record {
  warned = h.warned;
  duplicates = ap (λ (n : ℕ). n + 1) h.duplicates;
  before_ready = h.before_ready;
  gaps_reset = h.gaps_reset;
  resets_caused = h.resets_caused;
}
Step-IsCoherent (backpressure n t) h = h
Step-IsCoherent (dropped n t) h = h
Step-IsCoherent (blocked t) h = h
Step-IsCoherent (observe s t) h =
    observe_warnings-IsCoherent s.symbol s.ready_to_emit_false_warning_count _ h

-- After any calls on a new tracker the count of warnings is the sum over the symbols, each detected
-- duplicate is skipped, deltas before a snapshot are among the messages before readiness, and the
-- state resets are no fewer than the sequence gaps and no more than the gaps, reconnects and
-- resubscriptions together.
pub Reach-IsCoherent :
    {t : Lifecycle.WsLifecycleTracker} → Reach Lifecycle.new_tracker t → IsCoherent t
Reach-IsCoherent here = new-IsCoherent
Reach-IsCoherent (next r s) = Step-IsCoherent s (Reach-IsCoherent r)

observe_warnings_same :
    (b : Bool) (n : ℕ) (d : List (String × ℕ)) (t : Lifecycle.WsLifecycleTracker)
    → let u =
        if b
        then record t { ready_to_emit_false_warning_count = n; symbol_ready_false_warnings = d }
        else t in
      (u.snapshot_loaded_count ≡ t.snapshot_loaded_count)
      × (u.snapshot_failed_count ≡ t.snapshot_failed_count)
observe_warnings_same true n d t = (refl, refl)
observe_warnings_same false n d t = (refl, refl)

pub observe_ready_false_same :
    (s : OrderbookState) (t : Lifecycle.WsLifecycleTracker)
    → let u = Lifecycle.observe_ready_false s t in
      (u.snapshot_loaded_count ≡ t.snapshot_loaded_count)
      × (u.snapshot_failed_count ≡ t.snapshot_failed_count)
unfolding Lifecycle.observe_ready_false Lifecycle.observe_warnings
observe_ready_false_same s t = observe_warnings_same _ _ _ _

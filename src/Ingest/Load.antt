-- ===== src/Ingest/Load.antt =====
-- Snapshots that a session takes, and how deltas are classed.
use somethingtrade.Prelude.{
  ℕ, ◌+◌, ◌≡◌, ◌≢◌, refl, ap, sym, ◌∙◌, Bool, true, false, Option, none, some, inl, inr, ◌⊎◌,
  if◌then◌else◌, subst,
}
use somethingtrade.Orderbook.Types.{
  OrderbookState, OrderbookApplyResult, Clocks, SnapshotMessage, DeltaMessage, Status,
}
use somethingtrade.Orderbook.Updates.{apply_snapshot, apply_delta}
use somethingtrade.Orderbook.Sequence.{Blocked, apply_delta_fail_closed}
use somethingtrade.Orderbook.Feed.{Loaded, apply_snapshot_accepted}
use somethingtrade.Stale.{Feed, Watch}
use somethingtrade.Lifecycle.{WsLifecycleTracker, on_snapshot_loaded, on_snapshot_failed}
use somethingtrade.Stale.Verdict.{close_stale_period_lem}
use somethingtrade.Lifecycle.Counts.{observe_ready_false_same}
use somethingtrade.Ingest.{
  Session, load_snapshot, snapshot_loaded, snapshot_failed, close_at, observe, timed,
  Classification, gap_detected, invalid_fail_closed, rejected_as, is_old,
  sequence_trace_classification,
}

abbrev pub IsFailure : Classification → Type 0
IsFailure c = (c ≡ gap_detected) ⊎ (c ≡ invalid_fail_closed)

no-duplicate :
    (b : Bool)
    → IsFailure (if b then Classification.old_dropped else Classification.duplicate_skipped)
    → ⊥
no-duplicate true (inl h) = cc
no-duplicate true (inr h) = cc
no-duplicate false (inl h) = cc
no-duplicate false (inr h) = cc

failed_status :
    (r : OrderbookApplyResult) (status : Status)
    → IsFailure (rejected_as r status)
    → (status ≢ Status.delta_before_snapshot) × (status ≢ Status.duplicate_update)
failed_status r Status.delta_before_snapshot (inl h) = cc
failed_status r Status.delta_before_snapshot (inr h) = cc
failed_status r Status.duplicate_update h =
    absurd (no-duplicate (is_old r.previous_last_update_id r.final_update_id) h)
failed_status r Status.stale_snapshot_generation h = (λ e. cc, λ e. cc)
failed_status r Status.stale_snapshot_before_gap_boundary h = (λ e. cc, λ e. cc)
failed_status r Status.snapshot_invalid_levels h = (λ e. cc, λ e. cc)
failed_status r Status.snapshot_loaded h = (λ e. cc, λ e. cc)
failed_status r Status.previous_final_update_id_mismatch h = (λ e. cc, λ e. cc)
failed_status r Status.sequence_bridge_failed h = (λ e. cc, λ e. cc)
failed_status r Status.sequence_gap_or_reset h = (λ e. cc, λ e. cc)
failed_status r Status.invalid_delta_levels h = (λ e. cc, λ e. cc)
failed_status r Status.delta_applied h = (λ e. cc, λ e. cc)

failed_class :
    (r : OrderbookApplyResult) (accepted awaiting : Bool) (status : Status)
    → IsFailure (
        if accepted
        then if awaiting then Classification.bridge_accepted else Classification.expected_accepted
        else rejected_as r status)
    → (accepted ≡ false)
      × (status ≢ Status.delta_before_snapshot)
      × (status ≢ Status.duplicate_update)
failed_class r true true status (inl h) = cc
failed_class r true true status (inr h) = cc
failed_class r true false status (inl h) = cc
failed_class r true false status (inr h) = cc
failed_class r false awaiting status h =
    let (late, fresh) = failed_status r status h in (refl, late, fresh)

-- A delta that is classed as a gap or as invalid leaves the state without a snapshot, not ready, in
-- the next generation, and with the delta's final id as the boundary for the next snapshot.
pub classification-Blocked :
    (c : Clocks) (d : DeltaMessage) (s : OrderbookState) (awaiting : Bool)
    → IsFailure (sequence_trace_classification (apply_delta c d s).1 awaiting)
    → Blocked d.final_update_id (apply_delta c d s).0
      × ((apply_delta c d s).0.generation ≡ s.generation + 1)
unfolding sequence_trace_classification
classification-Blocked c d s awaiting h =
    let r = (apply_delta c d s).1 in
    let (refused, late, fresh) = failed_class r r.accepted awaiting r.status h in
    apply_delta_fail_closed c d s refused late fresh

-- What a session is after a snapshot that it takes, and after one that it does not.
pub record Took (m : SnapshotMessage) (s t : Session) : Type 0 where
  pub loaded : Loaded m s.feed.state t.feed.state
  pub closed : t.feed.open_stale_period ≡ none
  pub counted :
      t.watch.lifecycle.snapshot_loaded_count ≡ s.watch.lifecycle.snapshot_loaded_count + 1
  pub not_failed : t.watch.lifecycle.snapshot_failed_count ≡ s.watch.lifecycle.snapshot_failed_count
  pub restarted : t.updates_processed_since_snapshot ≡ 0
  pub last_id : t.last_snapshot_last_update_id ≡ some m.last_update_id

pub record Refused (s t : Session) : Type 0 where
  pub period : t.feed.open_stale_period ≡ s.feed.open_stale_period
  pub counted :
      t.watch.lifecycle.snapshot_failed_count ≡ s.watch.lifecycle.snapshot_failed_count + 1
  pub not_loaded : t.watch.lifecycle.snapshot_loaded_count ≡ s.watch.lifecycle.snapshot_loaded_count
  pub last_id : t.last_snapshot_last_update_id ≡ s.last_snapshot_last_update_id

close_at_lem :
    (o : Option ℕ) (f : Feed) (w : Watch)
    → let (f', w') = close_at o f w in
      (f'.open_stale_period ≡ none) × (f'.state ≡ f.state) × (w'.lifecycle ≡ w.lifecycle)
close_at_lem none f w = (refl, refl, refl)
close_at_lem (some now) f w = close_stale_period_lem now f w

after_true :
    (m : SnapshotMessage) (s s' : Session)
    → Loaded m s.feed.state s'.feed.state
    → s'.watch.lifecycle ≡ s.watch.lifecycle
    → Took m s (observe (snapshot_loaded m.last_update_id s'))
unfolding snapshot_loaded on_snapshot_loaded
after_true m s s' l e =
    let w : Watch = record s'.watch { lifecycle = on_snapshot_loaded s'.watch.lifecycle } in
    let o = s'.feed.state.last_book_update_monotonic_ns in
    let (closed, state, life) = close_at_lem o s'.feed w in
    let (f', w') = close_at o s'.feed w in
    let (count, fails) = observe_ready_false_same f'.state w'.lifecycle in
    record {
      loaded = subst (Loaded m s.feed.state) (sym state) l;
      closed = closed;
      counted =
          count
          ∙ ap (λ (t : WsLifecycleTracker). t.snapshot_loaded_count) life
          ∙ ap (λ (t : WsLifecycleTracker). t.snapshot_loaded_count + 1) e;
      not_failed =
          fails
          ∙ ap (λ (t : WsLifecycleTracker). t.snapshot_failed_count) life
          ∙ ap (λ (t : WsLifecycleTracker). t.snapshot_failed_count) e;
      restarted = refl;
      last_id = refl;
    }

after_false :
    (s s' : Session)
    → s'.watch.lifecycle ≡ s.watch.lifecycle
    → s'.feed.open_stale_period ≡ s.feed.open_stale_period
    → s'.last_snapshot_last_update_id ≡ s.last_snapshot_last_update_id
    → Refused s (observe (snapshot_failed s'))
unfolding snapshot_failed on_snapshot_failed
after_false s s' e p i =
    let (count, fails) =
      observe_ready_false_same s'.feed.state (on_snapshot_failed s'.watch.lifecycle) in
    record {
      period = p;
      counted = fails ∙ ap (λ (t : WsLifecycleTracker). t.snapshot_failed_count + 1) e;
      not_loaded = count ∙ ap (λ (t : WsLifecycleTracker). t.snapshot_loaded_count) e;
      last_id = i;
    }

after :
    (b : Bool) (m : SnapshotMessage) (s s' : Session)
    → (b ≡ true → Loaded m s.feed.state s'.feed.state)
    → s'.watch.lifecycle ≡ s.watch.lifecycle
    → s'.feed.open_stale_period ≡ s.feed.open_stale_period
    → s'.last_snapshot_last_update_id ≡ s.last_snapshot_last_update_id
    → let t = observe (if b then snapshot_loaded m.last_update_id s' else snapshot_failed s') in
      (b ≡ true → Took m s t) × (b ≡ false → Refused s t)
after true m s s' l e p i = (λ h. after_true m s s' (l refl) e, λ h. cc)
after false m s s' l e p i = (λ h. cc, λ h. after_false s s' e p i)

-- A snapshot that the state accepts is loaded with the time that `load_snapshot` chooses; it counts as
-- loaded, closes the open stale period, and restarts the count of updates. One that the state does
-- not accept counts as failed, and the open period and the last snapshot's id stay.
pub load_snapshot_lem :
    (clocks : Clocks) (apply recv : Option ℕ) (m : SnapshotMessage) (s : Session)
    → let (t, result) = load_snapshot clocks apply recv m s in
      (result.accepted ≡ true → Took (timed clocks apply recv m) s t)
      × (result.accepted ≡ false → Refused s t)
unfolding load_snapshot
load_snapshot_lem clocks apply recv m s =
    let m' = timed clocks apply recv m in
    let (state, result) = apply_snapshot clocks m' s.feed.state in
    let s' : Session = record s { feed = record s.feed { state = state } } in
    after result.accepted m' s s' (apply_snapshot_accepted clocks m' s.feed.state) refl refl refl

-- ===== src/Purge/Requeue.antt =====
-- The queue after the purge, and the state where no bridge is found.
use somethingtrade.Prelude.{
  ℕ, zero, suc, ◌+◌, ◌-◌, ◌≤◌, ◌<◌, ◌≡◌, refl, ap, sym, ◌∙◌, String, Bool, true, false, List, [],
  ◌∷◌, ◌++◌, arith, length, length-append, Bool-cases, inl, inr, ◌⊎◌, take, ◌==◌, if◌then◌else◌,
}
use mathlib.Core.List.{append_assoc, append-nil}
use somethingtrade.Orderbook.Types.{Clocks, OrderbookState}
use somethingtrade.Queue.{QueueBackpressureMonitor, record_drop}
use somethingtrade.Orderbook.State.{mark_not_ready}
use somethingtrade.Orderbook.Aging.{Aged, record_ready_false_age-Aged}
use somethingtrade.Purge.Bridge.{kept, purge_lem}
use somethingtrade.Purge.{
  Envelope, PurgeTarget, Requeued, is_full, put_nowait, requeue, mended, purge_queue_after_snapshot,
  purge_queued_depth_updates_after_snapshot, result_of, fail_without_bridge,
}

-- What a queue still takes of some envelopes: all of them without a bound, and otherwise as many as
-- there is room for.
abbrev pub taken : ℕ → List Envelope → List Envelope → List Envelope
taken bound queue es = if bound == 0 then es else take (bound - length queue) es

taken-full :
    (bound : ℕ) (queue es : List Envelope) → is_full bound queue ≡ true → taken bound queue es ≡ []
taken-full bound queue es h =
    let zero_room : bound - length queue ≡ 0 = ground arith in
    let bounded : (bound == 0) ≡ false = ground arith in rw (bounded, zero_room) refl

taken-room :
    (bound : ℕ) (queue es : List Envelope) (e : Envelope)
    → is_full bound queue ≡ false
    → taken bound queue (e ∷ es) ≡ e ∷ taken bound (queue ++ e ∷ []) es
taken-room bound queue es e h = elim (Bool-cases (bound == 0)) [
  | inl unlimited ↦ rw unlimited refl
  | inr bounded ↦
      let more : bound - length queue ≡ suc (bound - length (queue ++ e ∷ [])) =
        ground (arith, length-append queue (e ∷ [])) in
      rw (bounded, more) refl
]

take-nil : (n : ℕ) → take {A = Envelope} n [] ≡ []
take-nil zero = refl
take-nil (suc n) = refl

taken-nil : (bound : ℕ) (queue : List Envelope) → taken bound queue [] ≡ []
taken-nil bound queue = ground (arith, take-nil (bound - length queue))

requeue-queue :
    (bound : ℕ) (es : List Envelope) (r : Requeued)
    → (requeue bound es r).queue ≡ r.queue ++ taken bound r.queue es
unfolding requeue put_nowait
requeue-queue bound [] r =
    sym (ap (λ (l : List Envelope). r.queue ++ l) (taken-nil bound r.queue) ∙ append-nil r.queue)
requeue-queue bound (e ∷ es) r =
    requeue-queue bound es (put_nowait bound e r) ∙ elim (Bool-cases (is_full bound r.queue)) [
      | inl full ↦
          let same : (put_nowait bound e r).queue ≡ r.queue = rw full refl in
          ap (λ (l : List Envelope). l ++ taken bound l es) same
          ∙ ap (λ (l : List Envelope). r.queue ++ l)
              (taken-full bound r.queue es full ∙ sym (taken-full bound r.queue (e ∷ es) full))
      | inr space ↦
          let more : (put_nowait bound e r).queue ≡ r.queue ++ e ∷ [] = rw space refl in
          ap (λ (l : List Envelope). l ++ taken bound l es) more
          ∙ append_assoc r.queue (e ∷ []) (taken bound (r.queue ++ e ∷ []) es)
          ∙ ap (λ (l : List Envelope). r.queue ++ l) (sym (taken-room bound r.queue es e space))
    ]

requeue-count :
    (bound : ℕ) (es : List Envelope) (r : Requeued)
    → (requeue bound es r).dropped_on_requeue + length (requeue bound es r).queue
      ≡ r.dropped_on_requeue + length r.queue + length es
unfolding requeue put_nowait
requeue-count bound [] r = omega arith
requeue-count bound (e ∷ es) r =
    ground (arith, requeue-count bound es (put_nowait bound e r), length-append r.queue (e ∷ []))

requeue-dropped :
    (bound : ℕ) (es : List Envelope) (r : Requeued)
    → (requeue bound es r).monitor.queue_dropped_messages + r.dropped_on_requeue
      ≡ r.monitor.queue_dropped_messages + (requeue bound es r).dropped_on_requeue
unfolding requeue put_nowait record_drop
requeue-dropped bound [] r = refl
requeue-dropped bound (e ∷ es) r = ground (arith, requeue-dropped bound es (put_nowait bound e r))

-- The queue, the count of lost envelopes and the monitor after the purge, whatever the verdict.
target-queue :
    (clocks : Clocks) (b : Bool) (t : PurgeTarget)
    → let u = if b then fail_without_bridge clocks t else t in
      (u.queue ≡ t.queue) × (u.monitor ≡ t.monitor)
target-queue clocks true t = (refl, refl)
target-queue clocks false t = (refl, refl)

mended-counts :
    (bound : ℕ) (symbol : String) (id : ℕ) (queue : List Envelope) (lost : ℕ)
    → let (result, preserved) = purge_queued_depth_updates_after_snapshot symbol id queue in
      ((mended lost result).events_preserved_count ≡ length preserved - lost)
      × ((mended lost result).queue_size_after ≡ length preserved - lost)
unfolding mended purge_queued_depth_updates_after_snapshot result_of
mended-counts bound symbol id queue lost = ground arith

-- After a purge the queue holds as many of the preserved envelopes as its bound lets in, from the
-- front and in order; the result counts them, and each one lost is a dropped message of the monitor.
pub purge_queue_after_snapshot_lem :
    (clocks : Clocks) (bound : ℕ) (symbol : String) (id : ℕ) (t : PurgeTarget)
    → let (result, u) = purge_queue_after_snapshot clocks bound symbol id t in
      let preserved = (purge_queued_depth_updates_after_snapshot symbol id t.queue).1 in
      (u.queue ≡ taken bound [] preserved)
      × (result.events_preserved_count ≡ length u.queue)
      × (result.queue_size_after ≡ length u.queue)
      × (u.monitor.queue_dropped_messages + length u.queue
          ≡ t.monitor.queue_dropped_messages + length preserved)
unfolding purge_queue_after_snapshot
purge_queue_after_snapshot_lem clocks bound symbol id t =
    let (result, preserved) = purge_queued_depth_updates_after_snapshot symbol id t.queue in
    let r0 : Requeued = record {
      queue = [];
      monitor = t.monitor;
      lifecycle = t.lifecycle;
      dropped_on_requeue = 0;
    } in
    let r = requeue bound preserved r0 in
    let t' : PurgeTarget = record t {
      queue = r.queue;
      monitor = r.monitor;
      lifecycle = r.lifecycle;
    } in
    let (same, monitor) = target-queue clocks result.bridge_missing_after_snapshot t' in
    let count = requeue-count bound preserved r0 in
    let drops = requeue-dropped bound preserved r0 in
    let mends = mended-counts bound symbol id t.queue r.dropped_on_requeue in
    let len = ap (length {A = Envelope}) same in
    let dropped = ap (λ (m : QueueBackpressureMonitor). m.queue_dropped_messages) monitor in
    (same ∙ requeue-queue bound preserved r0, omega arith, omega arith, omega arith)

take-all : (n : ℕ) (es : List Envelope) → length es ≤ n → take n es ≡ es
take-all zero [] h = refl
take-all zero (e ∷ es) h = absurd (omega arith)
take-all (suc n) [] h = refl
take-all (suc n) (e ∷ es) h = ap (λ (l : List Envelope). e ∷ l) (take-all n es (omega arith))

-- On a queue without a bound, or with one that its contents respect, the purge loses nothing that
-- it means to keep.
pub purge_queue_after_snapshot-lossless :
    (clocks : Clocks) (bound : ℕ) (symbol : String) (id : ℕ) (t : PurgeTarget)
    → (bound ≡ 0) ⊎ (length t.queue ≤ bound)
    → (purge_queue_after_snapshot clocks bound symbol id t).1.queue ≡ kept symbol id false t.queue
purge_queue_after_snapshot-lossless clocks bound symbol id t h =
    let (queue, _, _, _) = purge_queue_after_snapshot_lem clocks bound symbol id t in
    let (keeps, count, after, before, sum) = purge_lem symbol id t.queue in
    let preserved = (purge_queued_depth_updates_after_snapshot symbol id t.queue).1 in
    let fits : length preserved ≤ length t.queue = omega arith in
    queue ∙ all_taken bound preserved (ground arith) ∙ keeps
  where
    all_taken :
        (bound : ℕ) (es : List Envelope)
        → (bound ≡ 0) ⊎ (length es ≤ bound)
        → taken bound [] es ≡ es
    all_taken bound es (inl z) = rw z refl
    all_taken bound es (inr l) = elim (Bool-cases (bound == 0)) [
      | inl unlimited ↦ rw unlimited refl
      | inr bounded ↦ rw bounded (take-all (bound - 0) es (omega arith))
    ]

-- What a missing bridge makes of the processor, and what a bridge that is not missing does.
pub record Failed (t u : PurgeTarget) : Type 0 where
  pub ready_to_emit : u.state.ready_to_emit ≡ false
  pub snapshot_ready : u.state.snapshot_ready ≡ false
  pub generation : u.state.generation ≡ t.state.generation + 1
  pub counted : u.bridge_missing_after_snapshot_count ≡ t.bridge_missing_after_snapshot_count + 1

abbrev pub Kept : PurgeTarget → PurgeTarget → Type 0
Kept t u =
    (u.state ≡ t.state)
    × (u.bridge_missing_after_snapshot_count ≡ t.bridge_missing_after_snapshot_count)

Aged-NotReady :
    (g : ℕ) {s t : OrderbookState}
    → Aged s t
    → (s.ready_to_emit ≡ false) × (s.snapshot_ready ≡ false) × (s.generation ≡ g)
    → (t.ready_to_emit ≡ false) × (t.snapshot_ready ≡ false) × (t.generation ≡ g)
Aged-NotReady g a h = rw a.same h

fail_without_bridge-Failed :
    (clocks : Clocks) (t : PurgeTarget) → Failed t (fail_without_bridge clocks t)
unfolding mark_not_ready
fail_without_bridge-Failed clocks t =
    let (ready, snapshot, generation) =
      Aged-NotReady (t.state.generation + 1) (record_ready_false_age-Aged _ _) (refl, refl, refl) in
    record {
      ready_to_emit = ready;
      snapshot_ready = snapshot;
      generation = generation;
      counted = refl;
    }

verdict :
    (clocks : Clocks) (b : Bool) (t : PurgeTarget)
    → let u = if b then fail_without_bridge clocks t else t in
      (b ≡ true → Failed t u) × (b ≡ false → Kept t u)
verdict clocks true t = (λ h. fail_without_bridge-Failed clocks t, λ h. cc)
verdict clocks false t = (λ h. cc, λ h. (refl, refl))

mended-missing :
    (symbol : String) (id : ℕ) (queue : List Envelope) (lost : ℕ)
    → let result = (purge_queued_depth_updates_after_snapshot symbol id queue).0 in
      ((mended lost result).bridge_missing_after_snapshot ≡ result.bridge_missing_after_snapshot)
      × ((mended lost result).bridge_missing_after_snapshot ≡ true
          → (mended lost result).bridge_candidate_found ≡ false)
      × ((mended lost result).bridge_missing_after_snapshot ≡ true
          → 0 < (mended lost result).future_events_dropped)
unfolding mended purge_queued_depth_updates_after_snapshot result_of
mended-missing symbol id queue lost = (ground arith, ground arith, ground arith)

-- The bridge is missing only if none is found and an update of the symbol is dropped that lies
-- beyond the snapshot. Then the state is left without a snapshot, not ready, in the next generation,
-- and the failure is counted; otherwise state and count stay as they are.
pub purge_queue_after_snapshot-missing :
    (clocks : Clocks) (bound : ℕ) (symbol : String) (id : ℕ) (t : PurgeTarget)
    → let (result, u) = purge_queue_after_snapshot clocks bound symbol id t in
      (result.bridge_missing_after_snapshot ≡ true
        → (result.bridge_candidate_found ≡ false) × (0 < result.future_events_dropped) × Failed t u)
      × (result.bridge_missing_after_snapshot ≡ false → Kept t u)
unfolding purge_queue_after_snapshot
purge_queue_after_snapshot-missing clocks bound symbol id t =
    let (result, preserved) = purge_queued_depth_updates_after_snapshot symbol id t.queue in
    let r0 : Requeued = record {
      queue = [];
      monitor = t.monitor;
      lifecycle = t.lifecycle;
      dropped_on_requeue = 0;
    } in
    let r = requeue bound preserved r0 in
    let t' : PurgeTarget = record t {
      queue = r.queue;
      monitor = r.monitor;
      lifecycle = r.lifecycle;
    } in
    let (same, none_found, future) = mended-missing symbol id t.queue r.dropped_on_requeue in
    let (failed, stays) = verdict clocks result.bridge_missing_after_snapshot t' in
    (
      λ h. (none_found h, future h, as_failed t t' _ refl refl (failed (sym same ∙ h))),
      λ h. stays (sym same ∙ h),
    )
  where
    as_failed :
        (t t' u : PurgeTarget)
        → t'.state.generation ≡ t.state.generation
        → t'.bridge_missing_after_snapshot_count ≡ t.bridge_missing_after_snapshot_count
        → Failed t' u
        → Failed t u
    as_failed t t' u g c f = record {
      ready_to_emit = f.ready_to_emit;
      snapshot_ready = f.snapshot_ready;
      generation = f.generation ∙ ap (λ (n : ℕ). n + 1) g;
      counted = f.counted ∙ ap (λ (n : ℕ). n + 1) c;
    }

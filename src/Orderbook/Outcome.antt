-- ===== src/Orderbook/Outcome.antt =====
-- What `apply_delta` and `apply_snapshot` do, as a case for each way through the code.
use somethingtrade.Prelude.{
  ℕ, ◌+◌, ◌<◌, ◌≤◌, ◌≡◌, ◌≢◌, refl, inl, inr, ◌⊎◌, true, false, none, some, [], ◌++◌, arith, ◌==◌,
  leb, Bool-cases, Option-cases, List-cases, append-nil_parts,
}
use somethingtrade.Orderbook.Types.{
  OrderbookState, OrderbookApplyResult, Clocks, NotReadyReason, SnapshotMessage, DeltaMessage,
  ResultBase, Status, delta_before_snapshot, delta_applied,
}
use somethingtrade.Orderbook.Reasons.{sorted_set, sorted_set-nil_iff}
use somethingtrade.Orderbook.Levels.{parse_levels}
use somethingtrade.Orderbook.State.{
  record_message_recv, record_ready_false_age, mark_not_ready, result,
}
use somethingtrade.Orderbook.Updates.{
  load_book, snapshot_levels, apply_snapshot, fail_closed, apply_book, delta_levels,
  delta_after_snapshot, delta_too_early, apply_delta, delta_received, snapshot_received,
  other_previous, bridges, other_generation, before_boundary,
}

-- The id of the delta continues the book: it spans the first id after the snapshot, or it starts
-- at the first id after the last delta.
abbrev pub Continues : DeltaMessage → OrderbookState → ℕ → Type 0
Continues d s last =
    (last < d.final_update_id)
    × (other_previous d.previous_final_update_id last ≡ false)
    × (s.awaiting_first_delta_after_snapshot ≡ true → bridges d s.snapshot_last_update_id ≡ true)
    × (s.awaiting_first_delta_after_snapshot ≡ false → d.first_update_id ≡ last + 1)

abbrev pub closed_by : Clocks → DeltaMessage → NotReadyReason → OrderbookState → OrderbookState
closed_by c d r s =
    mark_not_ready c r (some d.local_recv_monotonic_ns) true (some d.final_update_id) s

pub data DeltaOutcome (c : Clocks) (d : DeltaMessage) (s : OrderbookState)
    (out : OrderbookState × OrderbookApplyResult) : Type 0 where
  early :
      (s.snapshot_ready ≡ false) ⊎ (s.last_update_id ≡ none)
      → out.0 ≡ record_ready_false_age d.local_recv_monotonic_ns s
      → out.1.accepted ≡ false
      → out.1.status ≡ delta_before_snapshot
      → DeltaOutcome c d s out
  duplicate :
      (last : ℕ)
      → s.snapshot_ready ≡ true
      → s.last_update_id ≡ some last
      → d.final_update_id ≤ last
      → out.0 ≡ record_ready_false_age d.local_recv_monotonic_ns s
      → out.1.accepted ≡ false
      → out.1.status ≡ Status.duplicate_update
      → DeltaOutcome c d s out
  closed :
      (last : ℕ) (reason : NotReadyReason)
      → s.snapshot_ready ≡ true
      → s.last_update_id ≡ some last
      → last < d.final_update_id
      → ¬ (
          Continues d s last
          × ((parse_levels true d.bids).1 ≡ [])
          × ((parse_levels true d.asks).1 ≡ []))
      → out.0 ≡ closed_by c d reason s
      → out.1.accepted ≡ false
      → out.1.status ≢ delta_before_snapshot
      → out.1.status ≢ Status.duplicate_update
      → DeltaOutcome c d s out
  applied :
      (last : ℕ)
      → s.snapshot_ready ≡ true
      → s.last_update_id ≡ some last
      → Continues d s last
      → (parse_levels true d.bids).1 ≡ []
      → (parse_levels true d.asks).1 ≡ []
      → out.0 ≡ apply_book d (parse_levels true d.bids).0 (parse_levels true d.asks).0 s
      → out.1.accepted ≡ true
      → out.1.status ≡ delta_applied
      → DeltaOutcome c d s out

delta_levels-Outcome :
    (c : Clocks) (d : DeltaMessage) (before : ResultBase) (last : ℕ) (s : OrderbookState)
    → s.snapshot_ready ≡ true
    → s.last_update_id ≡ some last
    → Continues d s last
    → DeltaOutcome c d s (delta_levels c d before last s)
unfolding delta_levels fail_closed result
delta_levels-Outcome c d before last s ready known goes =
    let errors = (parse_levels true d.bids).1 ++ (parse_levels true d.asks).1 in
    elim (List-cases (sorted_set errors)) [
      | inl clean ↦
          let (e, f) =
            append-nil_parts (parse_levels true d.bids).1 (parse_levels true d.asks).1
              ((sorted_set-nil_iff errors).0 clean) in
          rw (clean, delta_levels) (applied last ready known goes e f refl refl refl)
      | inr (x, xs, bad) ↦
          rw (bad, delta_levels)
            (closed last NotReadyReason.invalid_delta_fail_closed ready known goes.0
              (λ h. let z : errors ≡ [] = rw (h.1, h.2) in cc ((sorted_set-nil_iff errors).1 z))
              refl refl (λ e. cc) (λ e. cc))
    ]

delta_after_snapshot-Outcome :
    (c : Clocks) (d : DeltaMessage) (before : ResultBase) (last : ℕ) (s : OrderbookState)
    → s.snapshot_ready ≡ true
    → s.last_update_id ≡ some last
    → DeltaOutcome c d s (delta_after_snapshot c d before last s)
unfolding delta_after_snapshot fail_closed result
delta_after_snapshot-Outcome c d before last s ready known =
    elim (Bool-cases (leb d.final_update_id last)) [
      | inl old ↦ rw old (duplicate last ready known (ground arith) refl refl refl)
      | inr new ↦
          let later : last < d.final_update_id = ground arith in
          elim (Bool-cases (other_previous d.previous_final_update_id last)) [
            | inl differs ↦
                rw (new, differs)
                  (closed last NotReadyReason.previous_final_update_id_mismatch ready known later
                    (λ h. cc) refl refl (λ e. cc) (λ e. cc))
            | inr agrees ↦ elim (Bool-cases (s.awaiting_first_delta_after_snapshot)) [
              | inl waits ↦ elim (Bool-cases (bridges d s.snapshot_last_update_id)) [
                | inl spans ↦
                    simp (new, agrees, waits, spans)
                      (delta_levels-Outcome c d before last s ready known
                        (later, agrees, λ w. spans, λ w. cc))
                | inr misses ↦
                    simp (new, agrees, waits, misses)
                      (closed last NotReadyReason.sequence_bridge_failed ready known later
                        (λ h. cc (h.0.2 waits)) refl refl (λ e. cc) (λ e. cc))
              ]
              | inr runs ↦ elim (Bool-cases (d.first_update_id == last + 1)) [
                | inl next ↦
                    simp (new, agrees, runs, next)
                      (delta_levels-Outcome c d before last s ready known
                        (later, agrees, λ w. cc, λ w. ground arith))
                | inr gap ↦
                    simp (new, agrees, runs, gap)
                      (closed last NotReadyReason.sequence_gap_or_reset ready known later
                        (λ h. let n : d.first_update_id ≡ last + 1 = h.0.3 runs in ground arith)
                        refl refl (λ e. cc) (λ e. cc))
              ]
            ]
          ]
    ]

delta_received-Outcome :
    (c : Clocks) (d : DeltaMessage) (s : OrderbookState) → DeltaOutcome c d s (delta_received c d s)
unfolding delta_received delta_too_early result
delta_received-Outcome c d s = elim (Bool-cases s.snapshot_ready) [
  | inl ready ↦ elim (Option-cases s.last_update_id) [
    | inl unknown ↦ simp (ready, unknown, delta_received) (early (inr unknown) refl refl refl)
    | inr (last, known) ↦
        simp (ready, known, delta_received) (delta_after_snapshot-Outcome c d _ last s ready known)
  ]
  | inr out ↦ simp out (early (inl out) refl refl refl)
]

-- The way that `apply_delta` takes, from the state in which the receipt is recorded.
pub apply_delta-Outcome :
    (c : Clocks) (d : DeltaMessage) (s : OrderbookState)
    → DeltaOutcome c d (record_message_recv d.local_recv_monotonic_ns s) (apply_delta c d s)
unfolding apply_delta
apply_delta-Outcome c d s =
    delta_received-Outcome c d (record_message_recv d.local_recv_monotonic_ns s)

pub data SnapshotOutcome (c : Clocks) (m : SnapshotMessage) (s : OrderbookState)
    (out : OrderbookState × OrderbookApplyResult) : Type 0 where
  refused :
      (other_generation m.generation s.generation ≡ true)
        ⊎ (before_boundary s.required_fresh_snapshot_after_update_id m.last_update_id ≡ true)
      → out.0 ≡ s
      → out.1.accepted ≡ false
      → SnapshotOutcome c m s out
  invalid :
      ¬ (((parse_levels false m.bids).1 ≡ []) × ((parse_levels false m.asks).1 ≡ []))
      → out.0
        ≡ mark_not_ready c NotReadyReason.snapshot_invalid_levels
            (some m.local_recv_monotonic_ns)
            false
            none
            s
      → out.1.accepted ≡ false
      → SnapshotOutcome c m s out
  loaded :
      other_generation m.generation s.generation ≡ false
      → before_boundary s.required_fresh_snapshot_after_update_id m.last_update_id ≡ false
      → (parse_levels false m.bids).1 ≡ []
      → (parse_levels false m.asks).1 ≡ []
      → out.0 ≡ load_book c m (parse_levels false m.bids).0 (parse_levels false m.asks).0 s
      → out.1.accepted ≡ true
      → SnapshotOutcome c m s out

snapshot_levels-Outcome :
    (c : Clocks) (m : SnapshotMessage) (before : ResultBase) (s : OrderbookState)
    → other_generation m.generation s.generation ≡ false
    → before_boundary s.required_fresh_snapshot_after_update_id m.last_update_id ≡ false
    → SnapshotOutcome c m s (snapshot_levels c m before s)
unfolding snapshot_levels result
snapshot_levels-Outcome c m before s own fresh =
    let errors = (parse_levels false m.bids).1 ++ (parse_levels false m.asks).1 in
    elim (List-cases (sorted_set errors)) [
      | inl clean ↦
          let (e, f) =
            append-nil_parts (parse_levels false m.bids).1 (parse_levels false m.asks).1
              ((sorted_set-nil_iff errors).0 clean) in
          rw (clean, snapshot_levels) (loaded own fresh e f refl refl)
      | inr (x, xs, bad) ↦
          rw (bad, snapshot_levels)
            (invalid
              (λ h. let z : errors ≡ [] = rw (h.0, h.1) in cc ((sorted_set-nil_iff errors).1 z))
              refl refl)
    ]

snapshot_received-Outcome :
    (c : Clocks) (m : SnapshotMessage) (s : OrderbookState)
    → SnapshotOutcome c m s (snapshot_received c m s)
unfolding snapshot_received result
snapshot_received-Outcome c m s = elim (Bool-cases (other_generation m.generation s.generation)) [
  | inl foreign ↦ simp foreign (refused (inl foreign) refl refl)
  | inr own ↦
      elim (Bool-cases
        (before_boundary s.required_fresh_snapshot_after_update_id m.last_update_id)) [
          | inl old ↦ simp (own, old) (refused (inr old) refl refl)
          | inr fresh ↦ simp (own, fresh) (snapshot_levels-Outcome c m _ s own fresh)
        ]
]

-- The way that `apply_snapshot` takes, from the state in which the receipt is recorded.
pub apply_snapshot-Outcome :
    (c : Clocks) (m : SnapshotMessage) (s : OrderbookState)
    → SnapshotOutcome c m (record_message_recv m.local_recv_monotonic_ns s) (apply_snapshot c m s)
unfolding apply_snapshot
apply_snapshot-Outcome c m s =
    snapshot_received-Outcome c m (record_message_recv m.local_recv_monotonic_ns s)

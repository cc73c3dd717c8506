-- ===== src/Ingest/Account.antt =====
-- What is accepted and what is counted.
use somethingtrade.Prelude.{
  ℕ, ◌+◌, ◌≡◌, ◌↔◌, refl, sym, ◌∙◌, Bool, true, false, ◌&&◌, some, arith, leb, if◌then◌else◌, ◌==◌,
  subst,
}
use somethingtrade.Orderbook.Types.{OrderbookState, Clocks, DeltaMessage, Status}
use somethingtrade.Orderbook.State.{record_message_recv, book_age_ns}
use somethingtrade.Orderbook.Sequence.{IsAcceptable, apply_delta-accepted_iff}
use somethingtrade.Quality.{age_of, is_stale}
use somethingtrade.Stale.{Limits, Feed, Watch, close_stale_period}
use somethingtrade.Stale.Check.{Check, check_feed}
use somethingtrade.Stale.Verdict.{idle, silence_begins, silence_lasts, heard, check_feed-Verdict}
use somethingtrade.Ingest.{
  Session, process_delta, receive_delta, count_result, count_rejected, finish, note_update_range,
  observe,
}

-- A message that is received now is not old.
never : (limit now : ℕ) → (is_stale limit (age_of (some now) (some now)) && (0 == 0)) ≡ true → ⊥
never limit now h = ground arith

abbrev received : DeltaMessage → Feed → Feed
received d f = record f {
  state = record_message_recv d.local_recv_monotonic_ns f.state;
  last_ws_message_recv_monotonic_ns = some d.local_recv_monotonic_ns;
}

abbrev check_of : DeltaMessage → Check
check_of d = record { now_monotonic_ns = d.local_recv_monotonic_ns; active = true; queue_size = 0 }

-- The check at the receipt spares the state.
receipt-spared :
    (limits : Limits) (clocks : Clocks) (d : DeltaMessage) (f : Feed) (w : Watch)
    → (check_feed limits clocks (check_of d) (received d f) w).0.state
      ≡ (book_age_ns d.local_recv_monotonic_ns
          (record_message_recv d.local_recv_monotonic_ns f.state)).0
receipt-spared limits clocks d f w =
    elim (check_feed-Verdict limits clocks (check_of d) (received d f) w) [
      | idle a p ↦ p.spared.state
      | silence_begins a s e p ↦
          absurd (never limits.feed_receive_stale_threshold_ns d.local_recv_monotonic_ns s)
      | silence_lasts q a s e p ↦
          absurd (never limits.feed_receive_stale_threshold_ns d.local_recv_monotonic_ns s)
      | heard a s p ↦ p.spared.state
    ]

-- The check and the receipt leave what the verdict on a delta reads.
aged-IsAcceptable :
    (n m : ℕ) (d : DeltaMessage) (s : OrderbookState)
    → IsAcceptable d (book_age_ns n (record_message_recv m s)).0 ↔ IsAcceptable d s
unfolding book_age_ns record_message_recv
aged-IsAcceptable n m d s = (λ h. h, λ h. h)

-- The watch over the feed does not stand between a delta and its verdict: a delta is accepted
-- exactly when the state that the symbol had before the receipt could take it.
pub process_delta-accepted_iff :
    (limits : Limits) (clocks : Clocks) (d : DeltaMessage) (s : Session)
    → ((process_delta limits clocks d s).1.accepted ≡ true) ↔ IsAcceptable d s.feed.state
unfolding process_delta receive_delta
process_delta-accepted_iff limits clocks d s =
    let now = d.local_recv_monotonic_ns in
    let state = (check_feed limits clocks (check_of d) (received d s.feed) s.watch).0.state in
    let e = receipt-spared limits clocks d s.feed s.watch in
    let iff = apply_delta-accepted_iff clocks d state in
    let same = aged-IsAcceptable now now d s.feed.state in
    (
      λ h. same.0 (subst (IsAcceptable d) e (iff.0 h)),
      λ h. iff.1 (subst (IsAcceptable d) (sym e) (same.1 h)),
    )

-- Three counts are the same but for the given increments.
abbrev Counted : ℕ → ℕ → Session → Session → Type 0
Counted a r s t =
    (t.messages_received ≡ s.messages_received)
    × (t.deltas_accepted ≡ s.deltas_accepted + a)
    × (t.deltas_rejected ≡ s.deltas_rejected + r)

zero_more : (n : ℕ) → n ≡ n + 0
zero_more n = omega arith

count_rejected-Counted : (status : Status) (s : Session) → Counted 0 0 s (count_rejected status s)
unfolding count_rejected
count_rejected-Counted Status.stale_snapshot_generation s = (refl, zero_more _, zero_more _)
count_rejected-Counted Status.stale_snapshot_before_gap_boundary s =
    (refl, zero_more _, zero_more _)
count_rejected-Counted Status.snapshot_invalid_levels s = (refl, zero_more _, zero_more _)
count_rejected-Counted Status.snapshot_loaded s = (refl, zero_more _, zero_more _)
count_rejected-Counted Status.delta_before_snapshot s = (refl, zero_more _, zero_more _)
count_rejected-Counted Status.duplicate_update s = (refl, zero_more _, zero_more _)
count_rejected-Counted Status.previous_final_update_id_mismatch s = (refl, zero_more _, zero_more _)
count_rejected-Counted Status.sequence_bridge_failed s = (refl, zero_more _, zero_more _)
count_rejected-Counted Status.sequence_gap_or_reset s = (refl, zero_more _, zero_more _)
count_rejected-Counted Status.invalid_delta_levels s = (refl, zero_more _, zero_more _)
count_rejected-Counted Status.delta_applied s = (refl, zero_more _, zero_more _)

-- A delta counts as accepted or as rejected.
abbrev CountedAs : Bool → Session → Session → Type 0
CountedAs true = Counted 1 0
CountedAs false = Counted 0 1

count_if :
    (recv : ℕ) (status : Status) (b : Bool) (s : Session)
    → CountedAs b s (
        if b
        then (let (f, w) = close_stale_period recv s.feed s.watch in
            record s { feed = f; watch = w; deltas_accepted = s.deltas_accepted + 1 })
        else count_rejected status (record s { deltas_rejected = s.deltas_rejected + 1 }))
count_if recv status true s = (refl, refl, zero_more _)
count_if recv status false s =
    let (m, a, r) =
      count_rejected-Counted status (record s { deltas_rejected = s.deltas_rejected + 1 }) in
    (m, a, r ∙ sym (zero_more _))

-- What comes after the counting leaves the three counts alone.
range_same :
    (b : Bool) (s : Session)
    → Counted 0 0 s
        (if b then record s { post_snapshot_trace_count = s.post_snapshot_trace_count + 1 } else s)
range_same true s = (refl, zero_more _, zero_more _)
range_same false s = (refl, zero_more _, zero_more _)

observe_same : (b : Bool) (s : Session) → Counted 0 0 s (if b then s else observe s)
observe_same true s = (refl, zero_more _, zero_more _)
observe_same false s = (refl, zero_more _, zero_more _)

then_same : (a r : ℕ) (s t u : Session) → Counted a r s t → Counted 0 0 t u → Counted a r s u
then_same a r s t u (m, x, y) (m', x', y') =
    (m' ∙ m, x' ∙ sym (zero_more _) ∙ x, y' ∙ sym (zero_more _) ∙ y)

as_same : (b : Bool) (s t u : Session) → CountedAs b s t → Counted 0 0 t u → CountedAs b s u
as_same true s t u h k = then_same 1 0 s t u h k
as_same false s t u h k = then_same 0 1 s t u h k

finish-Counted : (s : Session) → Counted 0 0 s (finish s)
finish-Counted s =
    observe_same s.feed.state.ready_to_emit
      (record s { updates_processed_since_snapshot = s.updates_processed_since_snapshot + 1 })

-- The counts before the delta, with the message counted as received.
abbrev pub Tallied : Bool → Session → Session → Type 0
Tallied accepted s t =
    (t.messages_received ≡ s.messages_received + 1)
    × (t.deltas_accepted ≡ s.deltas_accepted + (if accepted then 1 else 0))
    × (t.deltas_rejected ≡ s.deltas_rejected + (if accepted then 0 else 1))

tally :
    (b : Bool) (s r t : Session)
    → r.messages_received ≡ s.messages_received + 1
    → r.deltas_accepted ≡ s.deltas_accepted
    → r.deltas_rejected ≡ s.deltas_rejected
    → CountedAs b r t
    → Tallied b s t
tally true s r t m a j (m', a', j') = (m' ∙ m, omega arith, omega arith)
tally false s r t m a j (m', a', j') = (m' ∙ m, omega arith, omega arith)

-- Every delta counts once as received, and once as accepted or as rejected, as its result says.
pub process_delta-Tallied :
    (limits : Limits) (clocks : Clocks) (d : DeltaMessage) (s : Session)
    → let (t, result) = process_delta limits clocks d s in Tallied result.accepted s t
unfolding process_delta receive_delta count_result
process_delta-Tallied limits clocks d s =
    let (r, result) = receive_delta limits clocks d s in
    let counted = count_result d.local_recv_monotonic_ns result r in
    let ranged = note_update_range counted in
    tally result.accepted s r (finish ranged) refl refl refl (
      as_same result.accepted r counted (finish ranged)
        (count_if d.local_recv_monotonic_ns result.status result.accepted r)
        (then_same 0 0 counted ranged (finish ranged)
          (range_same (leb (counted.post_snapshot_trace_count + 1) 20) counted)
          (finish-Counted ranged)))

-- ===== src/Purge/Parted.antt =====
-- What the purge does to the queue, told without its loop: the drained envelopes are parted at the
-- bridge.
use somethingtrade.Prelude.{
  ℕ, ◌+◌, ◌≡◌, refl, ap, subst, sym, ◌∙◌, inl, inr, String, true, false, Option, none, some, List,
  [], ◌∷◌, ◌++◌, arith, leb, length, Bool-cases, All,
}
use mathlib.Core.List.{append_assoc, append-nil}
use somethingtrade.Orderbook.Types.{DeltaMessage}
use somethingtrade.Purge.{
  Envelope, Purge, start, own, visit, visit_own, keep, purge_loop, is_bridge, result_of,
  purge_queued_depth_updates_after_snapshot,
}
use somethingtrade.Purge.Bridge.{own_updates, with_bridge}
use somethingtrade.Purge.Split.{
  count_old, count_new, others, not_old, IsNoBridge, StartsAtBridge, is_some_envelope, Tail,
  loop-Tail,
}

-- How the drained envelopes are parted, and what each part comes to.
record Parted (symbol : String) (id : ℕ) (es : List Envelope) (p q : Purge) : Type 0 where
  pub before : List Envelope
  pub after : List Envelope
  pub whole : es ≡ before ++ after
  pub no_bridge : All (IsNoBridge symbol id) before
  pub at_bridge : StartsAtBridge symbol id after
  pub preserved : q.preserved ≡ p.preserved ++ (others symbol before ++ not_old symbol id after)
  pub old : q.old_events_dropped ≡ p.old_events_dropped + count_old id (own_updates symbol es)
  pub future :
      q.future_events_dropped ≡ p.future_events_dropped + count_new id (own_updates symbol before)
  pub found : q.bridge_candidate_found ≡ is_some_envelope after

-- The bridge: it is kept, and what follows it is the tail.
bridge_Parted :
    (symbol : String) (id : ℕ) (e : Envelope) (es : List Envelope) (d : DeltaMessage) (p q : Purge)
    → own symbol e ≡ some d
    → leb d.final_update_id id ≡ false
    → is_bridge id d ≡ true
    → Tail symbol id es (with_bridge e d p) q
    → Parted symbol id (e ∷ es) p q
unfolding own_updates
bridge_Parted symbol id e es d p q o new b t = record {
  before = [];
  after = e ∷ es;
  whole = refl;
  no_bridge = tt;
  at_bridge = (d, o, ground arith, ground arith);
  preserved = rw (o, new) (t.preserved ∙ append_assoc p.preserved (e ∷ []) (not_old symbol id es));
  old = rw (o, new) t.old;
  future = omega (arith, t.future);
  found = t.found;
}

-- An envelope without an update of the symbol, before the bridge: it is kept.
other_Parted :
    (symbol : String) (id : ℕ) (e : Envelope) (es : List Envelope) (p q : Purge)
    → own symbol e ≡ none
    → Parted symbol id es (keep e p) q
    → Parted symbol id (e ∷ es) p q
unfolding own_updates
other_Parted symbol id e es p q o h = record {
  before = e ∷ h.before;
  after = h.after;
  whole = ap (λ l. e ∷ l) h.whole;
  no_bridge = (inl o, h.no_bridge);
  at_bridge = h.at_bridge;
  preserved = rw o (
      h.preserved
      ∙ append_assoc p.preserved (e ∷ []) (others symbol h.before ++ not_old symbol id h.after));
  old = rw o h.old;
  future = rw o h.future;
  found = h.found;
}

-- An old update before the bridge: it is dropped, and counted.
old_Parted :
    (symbol : String) (id : ℕ) (e : Envelope) (es : List Envelope) (d : DeltaMessage) (p q : Purge)
    → own symbol e ≡ some d
    → leb d.final_update_id id ≡ true
    → Parted symbol id es (record p { old_events_dropped = p.old_events_dropped + 1 }) q
    → Parted symbol id (e ∷ es) p q
unfolding own_updates
old_Parted symbol id e es d p q o old h = record {
  before = e ∷ h.before;
  after = h.after;
  whole = ap (λ l. e ∷ l) h.whole;
  no_bridge = (inr (d, o, inl (ground arith)), h.no_bridge);
  at_bridge = h.at_bridge;
  preserved = rw o h.preserved;
  old = rw (o, old) (omega (arith, h.old));
  future = rw (o, old) h.future;
  found = h.found;
}

-- An update after a gap: it is dropped, and counted.
gap_Parted :
    (symbol : String) (id : ℕ) (e : Envelope) (es : List Envelope) (d : DeltaMessage) (p q : Purge)
    → own symbol e ≡ some d
    → leb d.final_update_id id ≡ false
    → is_bridge id d ≡ false
    → Parted symbol id es (record p { future_events_dropped = p.future_events_dropped + 1 }) q
    → Parted symbol id (e ∷ es) p q
unfolding own_updates
gap_Parted symbol id e es d p q o new b h = record {
  before = e ∷ h.before;
  after = h.after;
  whole = ap (λ l. e ∷ l) h.whole;
  no_bridge = (inr (d, o, inr (ground arith)), h.no_bridge);
  at_bridge = h.at_bridge;
  preserved = rw o h.preserved;
  old = rw (o, new) h.old;
  future = rw (o, new) (omega (arith, h.future));
  found = h.found;
}

-- One round before the bridge is found, given how the rest goes on from there.
visit-Parted :
    (symbol : String) (id : ℕ) (e : Envelope) (es : List Envelope) (o : Option DeltaMessage)
    (p : Purge)
    → own symbol e ≡ o
    → p.bridge_candidate_found ≡ false
    → ((p' : Purge)
        → p'.bridge_candidate_found ≡ false
        → Parted symbol id es p' (purge_loop symbol id es p'))
    → Parted symbol id (e ∷ es) p (purge_loop symbol id es (visit id e o p))
unfolding visit_own
visit-Parted symbol id e es none p o f rest = other_Parted symbol id e es p _ o (rest (keep e p) f)
visit-Parted symbol id e es (some d) p o f rest = elim (Bool-cases (leb d.final_update_id id)) [
  | inl old ↦
      let p' = record p { old_events_dropped = p.old_events_dropped + 1 } in
      let r : visit_own id e d p ≡ p' = rw old refl in
      subst (λ w. Parted symbol id (e ∷ es) p (purge_loop symbol id es w)) (sym r)
        (old_Parted symbol id e es d p _ o old (rest p' f))
  | inr new ↦ elim (Bool-cases (is_bridge id d)) [
    | inl bridge ↦
        let r : visit_own id e d p ≡ with_bridge e d p = simp (new, f, bridge) in
        subst (λ w. Parted symbol id (e ∷ es) p (purge_loop symbol id es w)) (sym r)
          (bridge_Parted symbol id e es d p _ o new bridge
            (loop-Tail symbol id es (with_bridge e d p) refl))
    | inr gap ↦
        let p' = record p { future_events_dropped = p.future_events_dropped + 1 } in
        let r : visit_own id e d p ≡ p' = simp (new, f, gap) in
        subst (λ w. Parted symbol id (e ∷ es) p (purge_loop symbol id es w)) (sym r)
          (gap_Parted symbol id e es d p _ o new gap (rest p' f))
  ]
]

loop-Parted :
    (symbol : String) (id : ℕ) (es : List Envelope) (p : Purge)
    → p.bridge_candidate_found ≡ false
    → Parted symbol id es p (purge_loop symbol id es p)
unfolding purge_loop own_updates
loop-Parted symbol id [] p f = record {
  before = [];
  after = [];
  whole = refl;
  no_bridge = tt;
  at_bridge = tt;
  preserved = sym (append-nil p.preserved);
  old = omega arith;
  future = omega arith;
  found = f;
}
loop-Parted symbol id (e ∷ es) p f =
    visit-Parted symbol id e es (own symbol e) p refl f (λ p' g. loop-Parted symbol id es p' g)

-- The purge parts the drained envelopes in two: in the first part no update of the symbol spans the
-- first id after the snapshot, and the second part is empty or begins with one that does. It keeps, in
-- order, of the first part what is no update of the symbol, and of the second all but the updates of the
-- symbol that end no later than the snapshot. Of all the symbol's updates, those that end no later than
-- the snapshot are counted as old; those of the first part that end after it as future; a bridge is
-- reported if the second part is not empty; and the sizes are those of the drained and kept envelopes.
pub purge-parted :
    (symbol : String) (id : ℕ) (drained : List Envelope)
    → let (result, preserved) = purge_queued_depth_updates_after_snapshot symbol id drained in
      (before after : List Envelope) × (drained ≡ before ++ after)
      × All (IsNoBridge symbol id) before
      × StartsAtBridge symbol id after
      × (preserved ≡ others symbol before ++ not_old symbol id after)
      × (result.old_events_dropped ≡ count_old id (own_updates symbol drained))
      × (result.future_events_dropped ≡ count_new id (own_updates symbol before))
      × (result.bridge_candidate_found ≡ is_some_envelope after)
      × (result.queue_size_before ≡ length drained)
      × (result.events_preserved_count ≡ length preserved)
      × (result.queue_size_after ≡ length preserved)
unfolding purge_queued_depth_updates_after_snapshot result_of
purge-parted symbol id drained =
    let h = loop-Parted symbol id drained start refl in
    (
      h.before,
      h.after,
      h.whole,
      h.no_bridge,
      h.at_bridge,
      h.preserved,
      omega (arith, h.old),
      omega (arith, h.future),
      h.found,
      refl,
      refl,
      refl,
    )

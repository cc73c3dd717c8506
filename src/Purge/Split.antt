-- ===== src/Purge/Split.antt =====
-- What the loop of the purge counts and keeps, by the updates and the envelopes it visits, and what
-- it does once it has found the bridge.
use somethingtrade.Prelude.{
  ℕ, ◌+◌, ◌<◌, ◌≤◌, ◌≡◌, ◌⊎◌, refl, sym, ◌∙◌, inl, inr, String, Bool, true, false, Option, none,
  some, List, [], ◌∷◌, ◌++◌, arith, leb, Bool-cases, if◌then◌else◌,
}
use mathlib.Core.List.{append_assoc, append-nil}
use somethingtrade.Orderbook.Types.{DeltaMessage}
use somethingtrade.Purge.{Envelope, Purge, own, visit, visit_own, keep, purge_loop}
use somethingtrade.Purge.Bridge.{own_updates}

-- How many of the updates end no later than the id.
abbrev pub count_old : ℕ → List DeltaMessage → ℕ
count_old id [] = 0
count_old id (d ∷ ds) = if leb d.final_update_id id then count_old id ds + 1 else count_old id ds

-- How many of the updates end after the id.
abbrev pub count_new : ℕ → List DeltaMessage → ℕ
count_new id [] = 0
count_new id (d ∷ ds) = if leb d.final_update_id id then count_new id ds else count_new id ds + 1

abbrev drop_update : Option DeltaMessage → Envelope → List Envelope → List Envelope
drop_update none e es = e ∷ es
drop_update (some d) e es = es

-- The envelopes that hold no update of the symbol.
abbrev pub others : String → List Envelope → List Envelope
others symbol [] = []
others symbol (e ∷ es) = drop_update (own symbol e) e (others symbol es)

abbrev drop_old : ℕ → Option DeltaMessage → Envelope → List Envelope → List Envelope
drop_old id none e es = e ∷ es
drop_old id (some d) e es = if leb d.final_update_id id then es else e ∷ es

-- The envelopes that hold no update of the symbol that ends no later than the id.
abbrev pub not_old : String → ℕ → List Envelope → List Envelope
not_old symbol id [] = []
not_old symbol id (e ∷ es) = drop_old id (own symbol e) e (not_old symbol id es)

-- The envelope holds no update of the symbol that spans the first id after the snapshot.
abbrev pub IsNoBridge : String → ℕ → Envelope → Type 0
IsNoBridge symbol id e =
    (own symbol e ≡ none)
    ⊎ ((d : DeltaMessage) × (own symbol e ≡ some d)
        × ((d.final_update_id < id + 1) ⊎ (id + 1 < d.first_update_id)))

-- The first of the envelopes, if there is one, holds an update that does.
abbrev pub StartsAtBridge : String → ℕ → List Envelope → Type 0
StartsAtBridge symbol id [] = Unit
StartsAtBridge symbol id (e ∷ es) =
    (d : DeltaMessage) × (own symbol e ≡ some d)
    × (d.first_update_id ≤ id + 1)
    × (id + 1 ≤ d.final_update_id)

abbrev pub is_some_envelope : List Envelope → Bool
is_some_envelope [] = false
is_some_envelope (e ∷ es) = true

-- Once the bridge is found: the loop keeps what is not old, and counts what is.
pub record Tail (symbol : String) (id : ℕ) (es : List Envelope) (p q : Purge) : Type 0 where
  pub preserved : q.preserved ≡ p.preserved ++ not_old symbol id es
  pub old : q.old_events_dropped ≡ p.old_events_dropped + count_old id (own_updates symbol es)
  pub future : q.future_events_dropped ≡ p.future_events_dropped
  pub found : q.bridge_candidate_found ≡ true

visit-Tail :
    (symbol : String) (id : ℕ) (e : Envelope) (es : List Envelope) (o : Option DeltaMessage)
    (p q : Purge)
    → own symbol e ≡ o
    → p.bridge_candidate_found ≡ true
    → Tail symbol id es (visit id e o p) q
    → Tail symbol id (e ∷ es) p q
unfolding visit_own own_updates
visit-Tail symbol id e es none p q o f t = record {
  preserved = rw o (t.preserved ∙ append_assoc p.preserved (e ∷ []) (not_old symbol id es));
  old = rw o t.old;
  future = t.future;
  found = t.found;
}
visit-Tail symbol id e es (some d) p q o f t = elim (Bool-cases (leb d.final_update_id id)) [
  | inl old ↦
      let r : visit_own id e d p ≡ record p { old_events_dropped = p.old_events_dropped + 1 } =
        rw old refl in
      let t' : Tail symbol id es (record p { old_events_dropped = p.old_events_dropped + 1 }) q =
        rw (← r) t in
      record {
        preserved = rw (o, old) t'.preserved;
        old = rw (o, old) (omega (arith, t'.old));
        future = t'.future;
        found = t'.found;
      }
  | inr new ↦
      let r : visit_own id e d p ≡ keep e p = simp (new, f) in
      let t' : Tail symbol id es (keep e p) q = rw (← r) t in
      record {
        preserved =
            rw (o, new) (t'.preserved ∙ append_assoc p.preserved (e ∷ []) (not_old symbol id es));
        old = rw (o, new) t'.old;
        future = t'.future;
        found = t'.found;
      }
]

visit_found :
    (id : ℕ) (e : Envelope) (o : Option DeltaMessage) (p : Purge)
    → p.bridge_candidate_found ≡ true
    → (visit id e o p).bridge_candidate_found ≡ true
unfolding visit_own
visit_found id e none p f = f
visit_found id e (some d) p f = elim (Bool-cases (leb d.final_update_id id)) [
  | inl old ↦ rw old f
  | inr new ↦ simp (new, f)
]

pub loop-Tail :
    (symbol : String) (id : ℕ) (es : List Envelope) (p : Purge)
    → p.bridge_candidate_found ≡ true
    → Tail symbol id es p (purge_loop symbol id es p)
unfolding purge_loop own_updates
loop-Tail symbol id [] p f = record {
  preserved = sym (append-nil p.preserved);
  old = omega arith;
  future = refl;
  found = f;
}
loop-Tail symbol id (e ∷ es) p f =
    let p' = visit id e (own symbol e) p in
    visit-Tail symbol id e es (own symbol e) p (purge_loop symbol id es p') refl f
      (loop-Tail symbol id es p' (visit_found id e (own symbol e) p f))

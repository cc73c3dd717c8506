-- ===== src/Purge/Bridge.antt =====
-- What the purge of the queue keeps, against a description of it, and the bridge that it finds.
use somethingtrade.Prelude.{
  ℕ, ◌+◌, ◌<◌, ◌≡◌, refl, ap, sym, ◌∙◌, String, Bool, true, false, ◌||◌, Option, none, some, List,
  [], ◌∷◌, ◌++◌, arith, leb, length, length-append, Bool-cases, inl, inr, if◌then◌else◌, All,
  All-append, subst,
}
use mathlib.Core.List.{append_assoc, append-nil}
use somethingtrade.Orderbook.Types.{DeltaMessage}
use somethingtrade.Purge.{
  Envelope, Purge, start, own, visit, visit_own, keep, purge_loop, is_bridge, result_of,
  purge_queued_depth_updates_after_snapshot,
}

-- The envelopes that a purge keeps, given whether the bridge is behind: those that are no update of
-- the symbol, and of the updates that end after the snapshot the first that spans the id after it
-- and all later ones.
abbrev kept_own : ℕ → Bool → Envelope → DeltaMessage → List Envelope → List Envelope → List Envelope
kept_own id found e d rest_found rest_open =
    if leb d.final_update_id id
    then if found then rest_found else rest_open
    else if found || is_bridge id d
    then e ∷ rest_found
    else rest_open

abbrev kept_one :
    ℕ → Bool → Envelope → Option DeltaMessage → List Envelope → List Envelope → List Envelope
kept_one id found e none rest_found rest_open = e ∷ (if found then rest_found else rest_open)
kept_one id found e (some d) rest_found rest_open = kept_own id found e d rest_found rest_open

pub kept : String → ℕ → Bool → List Envelope → List Envelope
kept symbol id found [] = []
kept symbol id found (e ∷ es) =
    let with_bridge = kept symbol id true es in
    let without = kept symbol id false es in kept_one id found e (own symbol e) with_bridge without

-- What the rest of the envelopes adds to what is kept.
abbrev choose : Bool → List Envelope → List Envelope → List Envelope
choose found a b = if found then a else b

-- One round: what is kept after it, for any continuation of the two kinds.
visit-kept :
    (id : ℕ) (e : Envelope) (o : Option DeltaMessage) (p : Purge) (a b : List Envelope)
    → (visit id e o p).preserved ++ choose (visit id e o p).bridge_candidate_found a b
      ≡ p.preserved ++ kept_one id p.bridge_candidate_found e o a b
unfolding visit_own
visit-kept id e none p a b = append_assoc p.preserved (e ∷ []) (choose p.bridge_candidate_found a b)
visit-kept id e (some d) p a b = elim (Bool-cases (leb d.final_update_id id)) [
  | inl old ↦ simp (old)
  | inr new ↦ elim (Bool-cases p.bridge_candidate_found) [
    | inl found ↦ simp (new, found, append_assoc p.preserved (e ∷ []) a)
    | inr not_yet ↦ elim (Bool-cases (is_bridge id d)) [
      | inl bridge ↦ simp (new, not_yet, bridge, append_assoc p.preserved (e ∷ []) a)
      | inr gap ↦ simp (new, not_yet, gap)
    ]
  ]
]

choose-kept :
    (symbol : String) (id : ℕ) (found : Bool) (es : List Envelope)
    → choose found (kept symbol id true es) (kept symbol id false es) ≡ kept symbol id found es
choose-kept symbol id true es = refl
choose-kept symbol id false es = refl

loop-kept :
    (symbol : String) (id : ℕ) (es : List Envelope) (p : Purge)
    → (purge_loop symbol id es p).preserved
      ≡ p.preserved ++ kept symbol id p.bridge_candidate_found es
unfolding purge_loop kept
loop-kept symbol id [] p = sym (append-nil p.preserved)
loop-kept symbol id (e ∷ es) p =
    let q = visit id e (own symbol e) p in
    loop-kept symbol id es q
    ∙ ap (λ (l : List Envelope). q.preserved ++ l)
        (sym (choose-kept symbol id q.bridge_candidate_found es))
    ∙ visit-kept id e (own symbol e) p (kept symbol id true es) (kept symbol id false es)

-- The count of all envelopes of the loop: dropped as old, dropped as future, and kept.
abbrev total : Purge → ℕ
total p = p.old_events_dropped + p.future_events_dropped + length p.preserved

visit-total :
    (id : ℕ) (e : Envelope) (o : Option DeltaMessage) (p : Purge)
    → total (visit id e o p) ≡ total p + 1
unfolding visit_own
visit-total id e none p = omega (arith, length-append p.preserved (e ∷ []))
visit-total id e (some d) p = ground (arith, length-append p.preserved (e ∷ []))

loop-total :
    (symbol : String) (id : ℕ) (es : List Envelope) (p : Purge)
    → total (purge_loop symbol id es p) ≡ total p + length es
unfolding purge_loop
loop-total symbol id [] p = omega arith
loop-total symbol id (e ∷ es) p =
    let q = visit id e (own symbol e) p in
    omega (arith, loop-total symbol id es q, visit-total id e (own symbol e) p)

-- The purge keeps exactly what `kept` says, in order, and its counts add up to the number of drained
-- envelopes.
pub purge_lem :
    (symbol : String) (id : ℕ) (drained : List Envelope)
    → let (result, preserved) = purge_queued_depth_updates_after_snapshot symbol id drained in
      (preserved ≡ kept symbol id false drained)
      × (result.events_preserved_count ≡ length preserved)
      × (result.queue_size_after ≡ length preserved)
      × (result.queue_size_before ≡ length drained)
      × (result.old_events_dropped + result.future_events_dropped + result.events_preserved_count
          ≡ result.queue_size_before)
unfolding purge_queued_depth_updates_after_snapshot result_of
purge_lem symbol id drained = (
  loop-kept symbol id drained start,
  refl,
  refl,
  refl,
  omega (arith, loop-total symbol id drained start),
)

-- The updates of the symbol among some envelopes.
abbrev pub maybe : Option DeltaMessage → List DeltaMessage → List DeltaMessage
maybe none ds = ds
maybe (some d) ds = d ∷ ds

unfoldable pub own_updates : String → List Envelope → List DeltaMessage
own_updates symbol [] = []
own_updates symbol (e ∷ es) = maybe (own symbol e) (own_updates symbol es)

maybe-append :
    (o : Option DeltaMessage) (xs ys : List DeltaMessage) → maybe o (xs ++ ys) ≡ maybe o xs ++ ys
maybe-append none xs ys = refl
maybe-append (some d) xs ys = refl

own_updates-append :
    (symbol : String) (xs ys : List Envelope)
    → own_updates symbol (xs ++ ys) ≡ own_updates symbol xs ++ own_updates symbol ys
unfolding own_updates
own_updates-append symbol [] ys = refl
own_updates-append symbol (x ∷ xs) ys =
    ap (maybe (own symbol x)) (own_updates-append symbol xs ys)
    ∙ maybe-append (own symbol x) (own_updates symbol xs) (own_updates symbol ys)

-- Either no update of the symbol is kept and no bridge is found, or the first one kept is the
-- bridge that is reported, and all that are kept end after the snapshot.
pub data Bridging (id : ℕ) (found : Bool) (first final : Option ℕ)
    : List DeltaMessage → Type 0 where
  unbridged : found ≡ false → Bridging id found first final []
  bridged :
      (d : DeltaMessage) (ds : List DeltaMessage)
      → found ≡ true
      → first ≡ some d.first_update_id
      → final ≡ some d.final_update_id
      → is_bridge id d ≡ true
      → All (λ (u : DeltaMessage). id < u.final_update_id) ds
      → Bridging id found first final (d ∷ ds)

abbrev BridgingAt : String → ℕ → Purge → Type 0
BridgingAt symbol id p =
    Bridging id p.bridge_candidate_found p.bridge_first_update_id p.bridge_final_update_id
      (own_updates symbol p.preserved)

Bridging-more :
    (id : ℕ) (found : Bool) (first final : Option ℕ) (ds : List DeltaMessage) (u : DeltaMessage)
    → found ≡ true
    → id < u.final_update_id
    → Bridging id found first final ds
    → Bridging id found first final (ds ++ u ∷ [])
Bridging-more id found first final [] u t l (unbridged f) = cc
Bridging-more id found first final (d ∷ ds) u t l (bridged _ _ f a b c all) =
    bridged d (ds ++ u ∷ []) f a b c
      (All-append (λ (v : DeltaMessage). id < v.final_update_id) ds (u ∷ []) all (l, tt))

Bridging-first :
    (id : ℕ) (found : Bool) (first final : Option ℕ) (ds : List DeltaMessage) (u : DeltaMessage)
    → found ≡ false
    → is_bridge id u ≡ true
    → Bridging id found first final ds
    → Bridging id true (some u.first_update_id) (some u.final_update_id) (ds ++ u ∷ [])
Bridging-first id found first final [] u t b (unbridged f) = bridged u [] refl refl refl b tt
Bridging-first id found first final (d ∷ ds) u t b (bridged _ _ f a k c all) = cc

kept_other :
    (symbol : String) (e : Envelope) (es : List Envelope)
    → own symbol e ≡ none
    → own_updates symbol (es ++ e ∷ []) ≡ own_updates symbol es
unfolding own_updates
kept_other symbol e es o =
    own_updates-append symbol es (e ∷ []) ∙ rw o (append-nil (own_updates symbol es))

kept_update :
    (symbol : String) (e : Envelope) (d : DeltaMessage) (es : List Envelope)
    → own symbol e ≡ some d
    → own_updates symbol (es ++ e ∷ []) ≡ own_updates symbol es ++ d ∷ []
unfolding own_updates
kept_update symbol e d es o = own_updates-append symbol es (e ∷ []) ∙ rw o refl

abbrev pub with_bridge : Envelope → DeltaMessage → Purge → Purge
with_bridge e d p = record p {
  preserved = p.preserved ++ e ∷ [];
  bridge_candidate_found = true;
  bridge_first_update_id = some d.first_update_id;
  bridge_final_update_id = some d.final_update_id;
}

visit-Bridging :
    (symbol : String) (id : ℕ) (e : Envelope) (o : Option DeltaMessage) (p : Purge)
    → own symbol e ≡ o
    → BridgingAt symbol id p
    → BridgingAt symbol id (visit id e o p)
unfolding visit_own
visit-Bridging symbol id e none p o h =
    subst
      (λ ds.
        Bridging id p.bridge_candidate_found p.bridge_first_update_id p.bridge_final_update_id ds)
      (sym (kept_other symbol e p.preserved o)) h
visit-Bridging symbol id e (some d) p o h = elim (Bool-cases (leb d.final_update_id id)) [
  | inl old ↦
      let q : visit_own id e d p ≡ record p { old_events_dropped = p.old_events_dropped + 1 } =
        rw old refl in
      subst (BridgingAt symbol id) (sym q) h
  | inr new ↦ elim (Bool-cases p.bridge_candidate_found) [
    | inl found ↦
        let q : visit_own id e d p ≡ keep e p = simp (new, found) in
        subst (BridgingAt symbol id) (sym q) (
          subst
            (Bridging id p.bridge_candidate_found p.bridge_first_update_id p.bridge_final_update_id)
            (sym (kept_update symbol e d p.preserved o))
            (Bridging-more id _ _ _ _ d found (ground arith) h))
    | inr not_yet ↦ elim (Bool-cases (is_bridge id d)) [
      | inl bridge ↦
          let q : visit_own id e d p ≡ with_bridge e d p = simp (new, not_yet, bridge) in
          subst (BridgingAt symbol id) (sym q) (
            subst (Bridging id true (some d.first_update_id) (some d.final_update_id))
              (sym (kept_update symbol e d p.preserved o))
              (Bridging-first id _ _ _ _ d not_yet bridge h))
      | inr gap ↦
          let q : visit_own id e d p
              ≡ record p { future_events_dropped = p.future_events_dropped + 1 } =
            simp (new, not_yet, gap) in
          subst (BridgingAt symbol id) (sym q) h
    ]
  ]
]

loop-Bridging :
    (symbol : String) (id : ℕ) (es : List Envelope) (p : Purge)
    → BridgingAt symbol id p
    → BridgingAt symbol id (purge_loop symbol id es p)
unfolding purge_loop
loop-Bridging symbol id [] p h = h
loop-Bridging symbol id (e ∷ es) p h =
    loop-Bridging symbol id es (visit id e (own symbol e) p)
      (visit-Bridging symbol id e (own symbol e) p refl h)

-- After the purge either no update of the symbol is left and no bridge is reported, or the first
-- update of the symbol that is left spans the id after the snapshot and is the bridge that is
-- reported, and all later ones end after the snapshot.
pub purge-Bridging :
    (symbol : String) (id : ℕ) (drained : List Envelope)
    → let (result, preserved) = purge_queued_depth_updates_after_snapshot symbol id drained in
      Bridging id result.bridge_candidate_found result.bridge_first_update_id
        result.bridge_final_update_id
        (own_updates symbol preserved)
unfolding purge_queued_depth_updates_after_snapshot result_of own_updates
purge-Bridging symbol id drained = loop-Bridging symbol id drained start (unbridged refl)

-- ===== src/Purge/Resume.antt =====
-- The purge and the order book state together: deltas that come off the queue after a snapshot.
use somethingtrade.Prelude.{
  ℕ, ◌<◌, ◌≡◌, refl, sym, ◌∙◌, String, Bool, true, false, Option, none, some, List, [], ◌∷◌, map,
  arith, subst,
}
use somethingtrade.Orderbook.Types.{DeltaMessage, Clocks, SnapshotMessage, OrderbookState}
use somethingtrade.Orderbook.Levels.{parse_levels}
use somethingtrade.Orderbook.Updates.{apply_snapshot, apply_delta, bridges, other_previous}
use somethingtrade.Orderbook.WellFormed.{IsWellFormed}
use somethingtrade.Orderbook.Reach.{apply_delta-IsWellFormed, apply_snapshot-IsWellFormed}
use somethingtrade.Orderbook.Sequence.{apply_delta_accepted, apply_delta-accepted_iff}
use somethingtrade.Orderbook.Feed.{Deltas, AllAccepted, Chain, apply_snapshot_accepted}
use somethingtrade.Purge.{Envelope, purge_queued_depth_updates_after_snapshot}
use somethingtrade.Purge.Bridge.{Bridging, bridged, own_updates, purge-Bridging}

-- A delta with good levels that names no previous id.
abbrev pub IsPlain : DeltaMessage → Type 0
IsPlain d =
    ((parse_levels true d.bids).1 ≡ [])
    × ((parse_levels true d.asks).1 ≡ [])
    × (d.previous_final_update_id ≡ none)

-- Each delta after the first starts at the id after the one before it.
abbrev pub Linked : Deltas → Type 0
Linked [] = Unit
Linked ((c, d) ∷ ds) = Chain d.final_update_id ds

abbrev pub AllPlain : Deltas → Type 0
AllPlain [] = Unit
AllPlain ((c, d) ∷ ds) = IsPlain d × AllPlain ds

no_previous :
    (d : DeltaMessage) (last : ℕ)
    → IsPlain d
    → other_previous d.previous_final_update_id last ≡ false
no_previous d last h = rw h.2 refl

Chain-AllAccepted :
    (ds : Deltas) (s : OrderbookState) (last : ℕ)
    → IsWellFormed s
    → s.snapshot_ready ≡ true
    → s.last_update_id ≡ some last
    → s.awaiting_first_delta_after_snapshot ≡ false
    → Chain last ds
    → AllPlain ds
    → AllAccepted ds s
Chain-AllAccepted [] s last h r e w k g = tt
Chain-AllAccepted ((c, d) ∷ ds) s last h r e w (first, later, k) (g, gs) =
    let a : (apply_delta c d s).1.accepted ≡ true =
      (apply_delta-accepted_iff c d s).1
        (last, r, e, (later, no_previous d last g, λ t. cc, λ t. first), g.0, g.1) in
    let step = apply_delta_accepted c d s h a in
    (
      a,
      Chain-AllAccepted ds (apply_delta c d s).0 d.final_update_id
          (apply_delta-IsWellFormed c d s h) (step.snapshot_ready ∙ r) step.last_update_id
          step.bridged k gs,
    )

bridge-AllAccepted :
    (ds : Deltas) (s : OrderbookState) (id : ℕ) {found : Bool} {first final : Option ℕ}
    → IsWellFormed s
    → s.snapshot_ready ≡ true
    → s.last_update_id ≡ some id
    → s.snapshot_last_update_id ≡ some id
    → s.awaiting_first_delta_after_snapshot ≡ true
    → Bridging id found first final (map (λ x. x.1) ds)
    → Linked ds
    → AllPlain ds
    → AllAccepted ds s
bridge-AllAccepted [] s id h r e i w b k g = tt
bridge-AllAccepted ((c, d) ∷ ds) s id h r e i w (bridged _ _ f a z spans all) k (g, gs) =
    let later : id < d.final_update_id = ground arith in
    let ok : bridges d s.snapshot_last_update_id ≡ true =
      subst (λ o. bridges d o ≡ true) (sym i) spans in
    let acc : (apply_delta c d s).1.accepted ≡ true =
      (apply_delta-accepted_iff c d s).1
        (id, r, e, (later, no_previous d id g, λ t. ok, λ t. cc), g.0, g.1) in
    let step = apply_delta_accepted c d s h acc in
    (
      acc,
      Chain-AllAccepted ds (apply_delta c d s).0 d.final_update_id
          (apply_delta-IsWellFormed c d s h) (step.snapshot_ready ∙ r) step.last_update_id
          step.bridged k gs,
    )

-- After a snapshot that a well-formed state accepts, the updates of the symbol that the purge leaves
-- in the queue are all accepted, one after the other, if each after the first starts right after
-- the one before it, all have good levels, and none names a previous id.
pub purge_resume :
    (c : Clocks) (m : SnapshotMessage) (s : OrderbookState) (symbol : String)
    (drained : List Envelope) (ds : Deltas)
    → IsWellFormed s
    → (apply_snapshot c m s).1.accepted ≡ true
    → map (λ x. x.1) ds
      ≡ own_updates symbol
          (purge_queued_depth_updates_after_snapshot symbol m.last_update_id drained).1
    → Linked ds
    → AllPlain ds
    → AllAccepted ds (apply_snapshot c m s).0
purge_resume c m s symbol drained ds h a same k g =
    let l = apply_snapshot_accepted c m s a in
    bridge-AllAccepted ds (apply_snapshot c m s).0 m.last_update_id
      (apply_snapshot-IsWellFormed c m s h) l.snapshot_ready l.last_update_id
      l.snapshot_last_update_id l.awaiting
      (subst (Bridging m.last_update_id _ _ _) (sym same)
        (purge-Bridging symbol m.last_update_id drained))
      k g

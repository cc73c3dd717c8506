-- ===== src/Emission/Clean.antt =====
-- Which samples are recorded, and how each attempt is counted.
use somethingtrade.Prelude.{
  ℕ, ◌+◌, ◌<◌, ◌≡◌, ◌≢◌, ◌⊎◌, inl, inr, refl, sym, ap, ◌∙◌, Bool, true, false, String, Option, none,
  some, List, [], ◌∷◌, ◌++◌,
}
use somethingtrade.Orderbook.Types.{OrderbookState, OrderbookSnapshot, Clocks}
use somethingtrade.Orderbook.View.{copy_snapshot}
use somethingtrade.Orderbook.WellFormed.{IsWellFormed}
use somethingtrade.Orderbook.Best.{ensure-eq}
use somethingtrade.Orderbook.Top.{Consistent, copy_snapshot-Consistent}
use somethingtrade.Quality.{OrderbookQualityValidator, OrderbookQualityResult, validate}
use somethingtrade.Quality.Gate.{Passes, validate-is_valid_iff}
use somethingtrade.Emission.{
  CleanSample, Violation, validate_clean_sample_schema, clean_sample_from_snapshot, Emission,
  count_quality, block_sample, record_sample, emit_if_valid, maybe_emit_or_block_sample, Delivery,
  copy_time, Sampled, check_copy, sample_state,
}

-- How an attempt at a sample goes: a valid one that violates nothing is emitted and recorded, and any
-- other is blocked.
pub data Counted (q : OrderbookQualityResult) (x : CleanSample) (e e' : Emission)
    : Option CleanSample → Type 0 where
  emitted :
      q.is_valid ≡ true
      → validate_clean_sample_schema x ≡ []
      → e'.samples_emitted ≡ e.samples_emitted + 1
      → e'.samples_blocked ≡ e.samples_blocked
      → e'.clean_samples ≡ e.clean_samples ++ x ∷ []
      → Counted q x e e' (some x)
  blocked :
      (q.is_valid ≡ false) ⊎ (validate_clean_sample_schema x ≢ [])
      → e'.samples_emitted ≡ e.samples_emitted
      → e'.samples_blocked ≡ e.samples_blocked + 1
      → e'.clean_samples ≡ e.clean_samples
      → Counted q x e e' none

-- The counters that the quality counts leave alone.
abbrev SameSamples : Emission → Emission → Type 0
SameSamples e e1 =
    (e1.samples_emitted ≡ e.samples_emitted)
    × (e1.samples_blocked ≡ e.samples_blocked)
    × (e1.clean_samples ≡ e.clean_samples)

record_sample-Counted :
    (violations : List Violation) (x : CleanSample) (q : OrderbookQualityResult) (e e1 : Emission)
    → validate_clean_sample_schema x ≡ violations
    → q.is_valid ≡ true
    → SameSamples e e1
    → let (e', sample) = record_sample violations x e1 in Counted q x e e' sample
unfolding record_sample
record_sample-Counted [] x q e e1 l v (a, b, c) =
    emitted v l (ap (λ (n : ℕ). n + 1) a) b (ap (λ (m : List CleanSample). m ++ x ∷ []) c)
record_sample-Counted (w ∷ violations) x q e e1 l v (a, b, c) =
    blocked (inr (λ h. cc)) a (ap (λ (n : ℕ). n + 1) b) c

emit_if_valid-Counted :
    (b : Bool) (x : CleanSample) (q : OrderbookQualityResult) (e e1 : Emission)
    → q.is_valid ≡ b
    → SameSamples e e1
    → let (e', sample) = emit_if_valid b x q e1 in Counted q x e e' sample
unfolding block_sample
emit_if_valid-Counted true x q e e1 v same =
    record_sample-Counted (validate_clean_sample_schema x) x q e e1 refl v same
emit_if_valid-Counted false x q e e1 v (a, b, c) = blocked (inl v) a (ap (λ (n : ℕ). n + 1) b) c

-- An attempt at a sample does one of two things. Where the snapshot is valid and its sample violates
-- nothing, it counts the sample as emitted and records it after the earlier ones. Where the snapshot is
-- not valid or the sample violates something, it counts a blocked sample and records none.
pub maybe_emit_or_block_sample-Counted :
    (n : ℕ) (ts : Option ℕ) (snapshot : OrderbookSnapshot) (q : OrderbookQualityResult)
    (e : Emission)
    → let (e', sample) = maybe_emit_or_block_sample n ts snapshot q e in
      Counted q (clean_sample_from_snapshot n ts snapshot q) e e' sample
unfolding maybe_emit_or_block_sample count_quality
maybe_emit_or_block_sample-Counted n ts snapshot q e =
    emit_if_valid-Counted q.is_valid (clean_sample_from_snapshot n ts snapshot q) q e
      (count_quality q e) refl (refl, refl, refl)

recorded :
    (l : List Violation) (x y : CleanSample) (e : Emission)
    → validate_clean_sample_schema x ≡ l
    → (record_sample l x e).1 ≡ some y
    → (validate_clean_sample_schema y ≡ []) × (x ≡ y)
unfolding record_sample
recorded [] x y e a h = let same : x ≡ y = cc in (rw (← same) a, same)
recorded (v ∷ l) x y e a h = cc

emitted_parts :
    (b : Bool) (x y : CleanSample) (q : OrderbookQualityResult) (e : Emission)
    → (emit_if_valid b x q e).1 ≡ some y
    → (b ≡ true) × (validate_clean_sample_schema y ≡ []) × (x ≡ y)
emitted_parts false x y q e h = cc
emitted_parts true x y q e h =
    let (schema, same) = recorded (validate_clean_sample_schema x) x y e refl h in
    (refl, schema, same)

copy-state :
    (c : Clocks) (n : ℕ) (t : Option ℕ) (w : Option String) (s : OrderbookState)
    → IsWellFormed s
    → (copy_snapshot c n t w s).0 ≡ s
unfolding copy_snapshot
copy-state c n t w s h = ensure-eq s h.bids.indexed h.asks.indexed

-- The copy that a sample is made from passed the quality checks, and the sample violates nothing.
pub record IsCheckedCopy (v : OrderbookQualityValidator) (d : Delivery) (s : OrderbookState)
    (snapshot : OrderbookSnapshot) (x : CleanSample) : Type 0 where
  pub passes : Passes v snapshot s d.observed
  pub schema : validate_clean_sample_schema x ≡ []
  pub bids : x.bids ≡ snapshot.bids_top_n
  pub asks : x.asks ≡ snapshot.asks_top_n
  pub last_update_id : x.last_update_id ≡ snapshot.last_update_id

check-IsCheckedCopy :
    (v : OrderbookQualityValidator) (d : Delivery) (snapshot : OrderbookSnapshot)
    (s : OrderbookState) (e : Emission) (x : CleanSample)
    → IsWellFormed s
    → (check_copy v d (some snapshot) s e).sample ≡ some x
    → IsCheckedCopy v d s snapshot x
unfolding maybe_emit_or_block_sample clean_sample_from_snapshot
check-IsCheckedCopy v d snapshot s e x h out =
    let q = (validate v snapshot (some s) d.observed).1 in
    let sample = clean_sample_from_snapshot d.depth_n d.exchange_event_ts snapshot q in
    let (valid, schema, same) = emitted_parts q.is_valid sample x q (count_quality q e) out in
    record {
      passes = (validate-is_valid_iff v snapshot s d.observed h).0 valid;
      schema = schema;
      bids = ap (λ (y : CleanSample). y.bids) (sym same);
      asks = ap (λ (y : CleanSample). y.asks) (sym same);
      last_update_id = ap (λ (y : CleanSample). y.last_update_id) (sym same);
    }

check_copy-eq :
    (v : OrderbookQualityValidator) (d : Delivery) (o o' : Option OrderbookSnapshot)
    (s s' : OrderbookState) (e : Emission)
    → o ≡ o'
    → s ≡ s'
    → check_copy v d o s e ≡ check_copy v d o' s' e
check_copy-eq v d o o' s s' e a b = rw (a, b) refl

-- The sample is of the state: a copy of it was made that is consistent with it and passed the checks.
abbrev pub IsCleanOf :
    OrderbookQualityValidator → Clocks → Delivery → OrderbookState → CleanSample → Type 0
IsCleanOf v c d s x =
    (snapshot : OrderbookSnapshot) × ((copy_snapshot c d.depth_n
        (some (copy_time s.last_local_recv_monotonic_ns c.monotonic_now_ns)) d.wall_ts s).1
      ≡ some snapshot)
    × Consistent s snapshot
    × IsCheckedCopy v d s snapshot x

-- On a well-formed state, with a depth above zero: a sample is recorded only of a copy whose best
-- prices, versions and generation are those of the state, that passes all quality checks (so that the
-- state is ready to emit), and that gives a sample without a violation of the schema; the sample has the
-- levels and the last update id of that copy.
pub sample_state-clean :
    (v : OrderbookQualityValidator) (c : Clocks) (d : Delivery) (s : OrderbookState) (e : Emission)
    (x : CleanSample)
    → IsWellFormed s
    → 0 < d.depth_n
    → (sample_state v c d s e).sample ≡ some x
    → IsCleanOf v c d s x
unfolding sample_state
sample_state-clean v c d s e x h depth out =
    let t = some (copy_time s.last_local_recv_monotonic_ns c.monotonic_now_ns) in
    let (snapshot, copied, consistent) =
      copy_snapshot-Consistent c d.depth_n t d.wall_ts s h depth in
    let same =
      check_copy-eq v d (copy_snapshot c d.depth_n t d.wall_ts s).1 (some snapshot)
        (copy_snapshot c d.depth_n t d.wall_ts s).0 s e copied
        (copy-state c d.depth_n t d.wall_ts s h) in
    (
      snapshot,
      copied,
      consistent,
      check-IsCheckedCopy v d snapshot s e x h (sym (ap (λ (r : Sampled). r.sample) same) ∙ out),
    )

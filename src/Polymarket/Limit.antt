-- ===== src/Polymarket/Limit.antt =====
-- The limit on samples, over a run of calls.
use somethingtrade.Prelude.{
  ℕ, ◌≤◌, ◌≡◌, refl, Bool, true, false, String, Option, none, some, List, [], ◌∷◌, if◌then◌else◌,
  ◌==◌, inl, inr, Bool-cases, arith,
}
use somethingtrade.Prelude.Texts.{Texts}
use somethingtrade.Polymarket.Types.{
  UpdateType, price_change, best_bid_ask, TokenBookMetadata, TokenBook, Mismatches,
  PolymarketLocalOrderBook, Settings,
}
use somethingtrade.Polymarket.Reported.{
  Side, bid, ask, is_sampled, minute_of, sample_at, sample_validation_error, without_snapshot,
  apply_beside, apply_one_reported_best, apply_both, apply_reported_at, apply_reported_best,
}
use somethingtrade.Polymarket.LocalBook.{
  init, finish, book_of, is_market_invalid, change_book, reset_errors, apply_book,
  apply_price_change, apply_best_bid_ask, mark_market_invalid, reconnect,
}
use somethingtrade.Polymarket.Run.{
  Call, snapshot, change, reported, invalidated, resized, renewed, reconnected, call, run,
}
use somethingtrade.Polymarket.Safety.{
  SameRest, update_tick_size-SameRest, update_token_metadata-SameRest,
}
use somethingtrade.Polymarket.Samples.{IsLimited, written, sample_below-IsLimited}

abbrev limit_of : Settings → ℕ
limit_of c = c.mismatch_sample_per_token_per_min

at-IsLimited :
    (path : Option String) (limit : ℕ) (t : UpdateType) (minute : ℕ) (b : TokenBook)
    (m : Mismatches)
    → IsLimited limit m
    → IsLimited limit (sample_at path limit t minute b m)
at-IsLimited none limit t minute b m h = h
at-IsLimited (some path) limit t minute b m h = sample_below-IsLimited limit t minute b m h

sample-IsLimited :
    (c : Settings) (t : UpdateType) (now : ℕ) (b : TokenBook) (m : Mismatches)
    → IsLimited (limit_of c) m
    → IsLimited (limit_of c) (sample_validation_error c t now b m)
unfolding sample_validation_error
sample-IsLimited c t now b m h =
    at-IsLimited c.mismatch_sample_path (limit_of c) t (minute_of now) b m h

beside-IsLimited :
    (n : ℕ) (c : Settings) (t : UpdateType) (side : Side) (r : ℕ) (local : Option ℕ) (b : TokenBook)
    (m : Mismatches)
    → IsLimited n m
    → IsLimited n (apply_beside c t side r local b m).1
unfolding apply_beside
beside-IsLimited n c t side r none b m h = h
beside-IsLimited n c t side r (some local) b m h = elim (Bool-cases (local == r)) [
  | inl equal ↦ simp equal h
  | inr other ↦ simp other (record { counted = h.counted; limited = h.limited })
]

one-IsLimited :
    (n : ℕ) (c : Settings) (t : UpdateType) (side : Side) (r : Option ℕ) (b : TokenBook)
    (m : Mismatches)
    → IsLimited n m
    → IsLimited n (apply_one_reported_best c t side r b m).1
unfolding apply_one_reported_best
one-IsLimited n c t side none b m h = h
one-IsLimited n c t side (some r) b m h = beside-IsLimited n c t side r _ b m h

reported_at-IsLimited :
    (has_snapshot : Bool) (c : Settings) (t : UpdateType) (now : ℕ) (rb ra : Option ℕ)
    (b : TokenBook) (m : Mismatches)
    → IsLimited (limit_of c) m
    → IsLimited (limit_of c) (apply_reported_at has_snapshot c t now rb ra b m).1
unfolding apply_reported_at apply_both
reported_at-IsLimited false c t now rb ra b m h =
    sample-IsLimited c t now (without_snapshot t rb ra b) m h
reported_at-IsLimited true c t now rb ra b m h =
    let n = limit_of c in
    let (b1, m1) = apply_one_reported_best c t bid rb b m in
    let h2 = one-IsLimited n c t ask ra b1 m1 (one-IsLimited n c t bid rb b m h) in
    let (b2, m2) = apply_one_reported_best c t ask ra b1 m1 in
    if-IsLimited n (is_sampled b2.validation_error) _ m2 (sample-IsLimited c t now b2 m2 h2) h2
  where
    if-IsLimited :
        (n : ℕ) (x : Bool) (m m' : Mismatches)
        → IsLimited n m
        → IsLimited n m'
        → IsLimited n (if x then m else m')
    if-IsLimited n true m m' h h' = h
    if-IsLimited n false m m' h h' = h'

-- The samples are within the limit of the settings.
abbrev pub IsSampledWithin : ℕ → PolymarketLocalOrderBook → Type 0
IsSampledWithin n s = (s.settings.mismatch_sample_per_token_per_min ≡ n) × IsLimited n s.mismatches

same-IsSampledWithin :
    (n : ℕ) (s s' : PolymarketLocalOrderBook)
    → SameRest s s'
    → IsSampledWithin n s
    → IsSampledWithin n s'
same-IsSampledWithin n s s' same h = simp (same.settings, same.mismatches) h

reported_best-IsLimited :
    (n : ℕ) (c : Settings) (t : UpdateType) (now : ℕ) (rb ra : Option ℕ) (b : TokenBook)
    (m : Mismatches)
    → limit_of c ≡ n
    → IsLimited n m
    → IsLimited n (apply_reported_best c t now rb ra b m).1
unfolding apply_reported_best
reported_best-IsLimited n c t now rb ra b m e h =
    rw (← e) (reported_at-IsLimited b.has_snapshot c t now rb ra b m (rw e h))

call-IsSampledWithin :
    (n : ℕ) (c : Call) (s : PolymarketLocalOrderBook)
    → IsSampledWithin n s
    → IsSampledWithin n (call c s).0
unfolding call apply_book apply_price_change apply_best_bid_ask finish mark_market_invalid reconnect
call-IsSampledWithin n (snapshot r m) s h = h
call-IsSampledWithin n (change r m) s h =
    let b = book_of s m.asset_id m.market in
    (
      h.0,
      reported_best-IsLimited n s.settings price_change r.received_ts m.best_bid m.best_ask
          (change_book (is_market_invalid s b) m b) s.mismatches h.0 h.1,
    )
call-IsSampledWithin n (reported r m) s h =
    let b = book_of s m.asset_id m.market in
    (
      h.0,
      reported_best-IsLimited n s.settings best_bid_ask r.received_ts m.best_bid m.best_ask
          (reset_errors b) s.mismatches h.0 h.1,
    )
call-IsSampledWithin n (invalidated market_id) s h = h
call-IsSampledWithin n (resized market_id token_id tick_size) s h =
    same-IsSampledWithin n s _ (update_tick_size-SameRest market_id token_id tick_size s) h
call-IsSampledWithin n (renewed token_metadata active) s h =
    same-IsSampledWithin n s _ (update_token_metadata-SameRest token_metadata active s) h
call-IsSampledWithin n reconnected s h = h

run-IsSampledWithin :
    (n : ℕ) (cs : List Call) (s : PolymarketLocalOrderBook)
    → IsSampledWithin n s
    → IsSampledWithin n (run cs s).0
unfolding run
run-IsSampledWithin n [] s h = h
run-IsSampledWithin n (c ∷ cs) s h =
    run-IsSampledWithin n cs (call c s).0 (call-IsSampledWithin n c s h)

-- Over any run of calls, at most the configured number of samples is written for a token in a minute.
pub run-written :
    (settings : Settings) (metadata : Texts TokenBookMetadata) (cs : List Call) (token : String)
    (minute : ℕ)
    → written (run cs (init settings metadata)).0.mismatches.samples token minute
      ≤ settings.mismatch_sample_per_token_per_min
unfolding init
run-written settings metadata cs token minute =
    let start : IsSampledWithin settings.mismatch_sample_per_token_per_min
        (init settings metadata) =
      (refl, record { counted = λ t u. refl; limited = λ t u. omega arith }) in
    (run-IsSampledWithin _ cs (init settings metadata) start).1.limited token minute

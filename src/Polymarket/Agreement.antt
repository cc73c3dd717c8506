-- ===== src/Polymarket/Agreement.antt =====
-- What `_apply_reported_best` leaves as it was, and what it means that the book stays complete.
use somethingtrade.Prelude.{
  ℕ, ◌≡◌, refl, sym, ◌∙◌, inl, inr, Bool, true, false, Option, none, some, arith, ◌==◌, ==_iff,
  Bool-cases,
}
use somethingtrade.Polymarket.Types.{
  BestValidationMode, strict, tolerant, diagnostic, UpdateType, book, price_change, best_bid_ask,
  TokenBook, Settings, Mismatches,
}
use somethingtrade.Polymarket.Reported.{
  Side, bid, ask, local_best, size_unknown, apply_beside, apply_one_reported_best, apply_both,
  apply_reported_at, apply_reported_best, without_snapshot,
}
use somethingtrade.Polymarket.Mismatch.{
  SameBook, SameBook-refl, SameBook-trans, Close, AgreesWith, Checked, set_override-SameBook,
  set_override-incomplete, distrust-Checked, mismatched-Checked,
}

beside-Checked :
    (c : Settings) (t : UpdateType) (side : Side) (reported : ℕ) (local : Option ℕ) (b : TokenBook)
    (m : Mismatches)
    → local_best side b ≡ local
    → Checked c side (some reported) b (apply_beside c t side reported local b m).0
unfolding apply_beside
beside-Checked c t side reported none b m l = distrust-Checked c side reported (size_unknown side) b
beside-Checked c t side reported (some local) b m l = elim (Bool-cases (local == reported)) [
  | inl equal ↦ simp equal (record {
    same = set_override-SameBook side none b;
    before = λ h. sym (set_override-incomplete side none b) ∙ h;
    agrees = λ h.
        simp l
          (equal-Close c.best_validation_mode local reported _ ((==_iff local reported).0 equal));
  })
  | inr other ↦
      simp other (mismatched-Checked c c.best_validation_mode side reported local b refl l)
]
  where
    equal-Close :
        (mode : BestValidationMode) (local reported tolerance : ℕ)
        → local ≡ reported
        → Close mode tolerance local reported
    equal-Close strict local reported tolerance e = e
    equal-Close tolerant local reported tolerance e = omega (arith, e)
    equal-Close diagnostic local reported tolerance e = tt

one-Checked :
    (c : Settings) (t : UpdateType) (side : Side) (reported : Option ℕ) (b : TokenBook)
    (m : Mismatches)
    → Checked c side reported b (apply_one_reported_best c t side reported b m).0
unfolding apply_one_reported_best
one-Checked c t side none b m = record { same = SameBook-refl b; before = λ h. h; agrees = λ h. tt }
one-Checked c t side (some reported) b m =
    beside-Checked c t side reported (local_best side b) b m refl

pub SameBook-local_best :
    (side : Side) (b b' : TokenBook) → SameBook b b' → local_best side b' ≡ local_best side b
SameBook-local_best bid b b' s = simp s.bids refl
SameBook-local_best ask b b' s = simp s.asks refl

-- What both reported prices do to a book.
pub record BothChecked (c : Settings) (rb ra : Option ℕ) (b b' : TokenBook) : Type 0 where
  pub same : SameBook b b'
  pub before : b'.incomplete ≡ false → b.incomplete ≡ false
  pub bid_agrees : b'.incomplete ≡ false → AgreesWith c b.metadata.tick_size (local_best bid b) rb
  pub ask_agrees : b'.incomplete ≡ false → AgreesWith c b.metadata.tick_size (local_best ask b) ra

both-Checked :
    (c : Settings) (t : UpdateType) (rb ra : Option ℕ) (b : TokenBook) (m : Mismatches)
    → BothChecked c rb ra b (apply_both c t rb ra b m).0
unfolding apply_both
both-Checked c t rb ra b m =
    let (b1, m1) = apply_one_reported_best c t bid rb b m in
    let p = one-Checked c t bid rb b m in
    let q = one-Checked c t ask ra b1 m1 in
    let local = SameBook-local_best ask b b1 p.same in
    record {
      same = SameBook-trans _ _ _ p.same q.same;
      before = λ h. p.before (q.before h);
      bid_agrees = λ h. p.agrees (q.before h);
      ask_agrees = λ h. simp (← local, ← p.same.metadata) (q.agrees h);
    }

without-SameBook :
    (t : UpdateType) (rb ra : Option ℕ) (b : TokenBook)
    → SameBook b (without_snapshot t rb ra b) × ((without_snapshot t rb ra b).incomplete ≡ true)
without-SameBook book rb ra b = (
  record {
    token_id = refl;
    metadata = refl;
    bids = refl;
    asks = refl;
    has_snapshot = refl;
    update_count = refl;
    invalid = refl;
  },
  refl,
)
without-SameBook price_change rb ra b = (
  record {
    token_id = refl;
    metadata = refl;
    bids = refl;
    asks = refl;
    has_snapshot = refl;
    update_count = refl;
    invalid = refl;
  },
  refl,
)
without-SameBook best_bid_ask rb ra b = (
  record {
    token_id = refl;
    metadata = refl;
    bids = refl;
    asks = refl;
    has_snapshot = refl;
    update_count = refl;
    invalid = refl;
  },
  refl,
)

at-Checked :
    (has_snapshot : Bool) (c : Settings) (t : UpdateType) (now : ℕ) (rb ra : Option ℕ)
    (b : TokenBook) (m : Mismatches)
    → BothChecked c rb ra b (apply_reported_at has_snapshot c t now rb ra b m).0
unfolding apply_reported_at
at-Checked true c t now rb ra b m = both-Checked c t rb ra b m
at-Checked false c t now rb ra b m =
    let (same, off) = without-SameBook t rb ra b in
    record { same = same; before = λ h. cc; bid_agrees = λ h. cc; ask_agrees = λ h. cc }

-- A book that is complete after the reported prices was complete before, and agrees with them.
pub reported-Checked :
    (c : Settings) (t : UpdateType) (now : ℕ) (rb ra : Option ℕ) (b : TokenBook) (m : Mismatches)
    → BothChecked c rb ra b (apply_reported_best c t now rb ra b m).0
unfolding apply_reported_best
reported-Checked c t now rb ra b m = at-Checked b.has_snapshot c t now rb ra b m

-- ===== src/Polymarket/Mismatch.antt =====
-- What a single reported best price does to a book, by whether it agrees with the book.
use somethingtrade.Prelude.{
  ℕ, ◌*◌, ◌≤◌, ◌≡◌, refl, ◌∙◌, inl, inr, Bool, true, false, Option, none, some, leb→le, Bool-cases,
}
use somethingtrade.Polymarket.Types.{
  BestValidationMode, strict, tolerant, diagnostic, BookError, TokenBook, Settings,
}
use somethingtrade.Polymarket.Reported.{
  Side, bid, ask, local_best, distance, within_best_tolerance, set_override, distrust, mismatch,
  mismatched,
}

-- The parts of a book that a reported price does not touch.
pub record SameBook (b b' : TokenBook) : Type 0 where
  pub token_id : b'.token_id ≡ b.token_id
  pub metadata : b'.metadata ≡ b.metadata
  pub bids : b'.bids ≡ b.bids
  pub asks : b'.asks ≡ b.asks
  pub has_snapshot : b'.has_snapshot ≡ b.has_snapshot
  pub update_count : b'.update_count ≡ b.update_count
  pub invalid : b'.invalid ≡ b.invalid

pub SameBook-refl : (b : TokenBook) → SameBook b b
SameBook-refl b = record {
  token_id = refl;
  metadata = refl;
  bids = refl;
  asks = refl;
  has_snapshot = refl;
  update_count = refl;
  invalid = refl;
}

pub SameBook-trans : (a b c : TokenBook) → SameBook a b → SameBook b c → SameBook a c
SameBook-trans a b c p q = record {
  token_id = q.token_id ∙ p.token_id;
  metadata = q.metadata ∙ p.metadata;
  bids = q.bids ∙ p.bids;
  asks = q.asks ∙ p.asks;
  has_snapshot = q.has_snapshot ∙ p.has_snapshot;
  update_count = q.update_count ∙ p.update_count;
  invalid = q.invalid ∙ p.invalid;
}

-- How far a reported price may be from the book's own for the book to stay complete.
abbrev pub Close : BestValidationMode → ℕ → ℕ → ℕ → Type 0
Close strict tolerance local reported = local ≡ reported
Close tolerant tolerance local reported = distance local reported ≤ tolerance
Close diagnostic tolerance local reported = Unit

-- A price that is reported has one of the book near it.
abbrev pub AgreesWith : Settings → ℕ → Option ℕ → Option ℕ → Type 0
AgreesWith c tick_size local none = Unit
AgreesWith c tick_size none (some reported) = ⊥
AgreesWith c tick_size (some local) (some reported) =
    Close c.best_validation_mode (c.best_validation_tolerance_ticks * tick_size) local reported

-- What one reported price does to a book: complete after it means complete before, and in agreement.
pub record Checked (c : Settings) (side : Side) (reported : Option ℕ) (b b' : TokenBook)
    : Type 0 where
  pub same : SameBook b b'
  pub before : b'.incomplete ≡ false → b.incomplete ≡ false
  pub agrees :
      b'.incomplete ≡ false → AgreesWith c b.metadata.tick_size (local_best side b) reported

pub set_override-SameBook :
    (side : Side) (v : Option ℕ) (b : TokenBook) → SameBook b (set_override side v b)
set_override-SameBook bid v b = record {
  token_id = refl;
  metadata = refl;
  bids = refl;
  asks = refl;
  has_snapshot = refl;
  update_count = refl;
  invalid = refl;
}
set_override-SameBook ask v b = record {
  token_id = refl;
  metadata = refl;
  bids = refl;
  asks = refl;
  has_snapshot = refl;
  update_count = refl;
  invalid = refl;
}

pub set_override-incomplete :
    (side : Side) (v : Option ℕ) (b : TokenBook) → (set_override side v b).incomplete ≡ b.incomplete
set_override-incomplete bid v b = refl
set_override-incomplete ask v b = refl

pub distrust-SameBook :
    (side : Side) (reported : ℕ) (error : BookError) (b : TokenBook)
    → SameBook b (distrust side reported error b)
distrust-SameBook bid reported error b = record {
  token_id = refl;
  metadata = refl;
  bids = refl;
  asks = refl;
  has_snapshot = refl;
  update_count = refl;
  invalid = refl;
}
distrust-SameBook ask reported error b = record {
  token_id = refl;
  metadata = refl;
  bids = refl;
  asks = refl;
  has_snapshot = refl;
  update_count = refl;
  invalid = refl;
}

pub distrust-incomplete :
    (side : Side) (reported : ℕ) (error : BookError) (b : TokenBook)
    → (distrust side reported error b).incomplete ≡ true
distrust-incomplete bid reported error b = refl
distrust-incomplete ask reported error b = refl

pub note-SameBook :
    (error : Option BookError) (ok : Bool) (b : TokenBook)
    → SameBook b (record b { validation_error = error; reported_best_validation_ok = ok })
note-SameBook error ok b = record {
  token_id = refl;
  metadata = refl;
  bids = refl;
  asks = refl;
  has_snapshot = refl;
  update_count = refl;
  invalid = refl;
}

-- A book that is not trusted is not complete.
pub distrust-Checked :
    (c : Settings) (side : Side) (reported : ℕ) (error : BookError) (b : TokenBook)
    → Checked c side (some reported) b (distrust side reported error b)
distrust-Checked c side reported error b =
    let off = distrust-incomplete side reported error b in
    record { same = distrust-SameBook side reported error b; before = λ h. cc; agrees = λ h. cc }

pub mismatched-Checked :
    (c : Settings) (mode : BestValidationMode) (side : Side) (reported local : ℕ) (b : TokenBook)
    → c.best_validation_mode ≡ mode
    → local_best side b ≡ some local
    → Checked c side (some reported) b (
        mismatched mode
          (within_best_tolerance c local reported b.metadata.tick_size)
          side
          reported
          b)
unfolding mismatched
mismatched-Checked c diagnostic side reported local b e l = record {
  same = note-SameBook _ _ b;
  before = λ h. h;
  agrees = λ h. simp (l, e) tt;
}
mismatched-Checked c strict side reported local b e l =
    distrust-Checked c side reported (mismatch side) b
mismatched-Checked c tolerant side reported local b e l =
    elim (Bool-cases (within_best_tolerance c local reported b.metadata.tick_size)) [
      | inl near ↦ simp near (record {
        same = note-SameBook _ _ b;
        before = λ h. h;
        agrees = λ h.
            simp (l, e)
              (leb→le (distance local reported)
                (c.best_validation_tolerance_ticks * b.metadata.tick_size) near);
      })
      | inr far ↦ simp far (distrust-Checked c side reported (mismatch side) b)
    ]

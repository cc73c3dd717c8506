-- ===== src/Polymarket/Complete.antt =====
-- What a quote that is marked complete says of the book it was taken from.
use somethingtrade.Prelude.{
  ℕ, ◌<◌, ◌≡◌, refl, sym, ◌∙◌, inl, inr, String, str_eq, Bool, Bool-cases, true, false, not, ◌&&◌,
  ◌||◌, Option, none, some, List, ltb→lt,
}
use somethingtrade.Prelude.Texts.{find, find-set, member}
use somethingtrade.Polymarket.Types.{
  UpdateType, book, price_change, best_bid_ask, TokenBookMetadata, TokenBook, PolymarketQuote,
  PolymarketLocalOrderBook, Settings, Received, BookMessage, PriceChange, BestBidAsk,
}
use somethingtrade.Polymarket.Levels.{best_bid, best_ask, is_uncrossed}
use somethingtrade.Polymarket.Reported.{
  bid, ask, local_best, apply_reported_best, clear_resolved_overrides,
}
use somethingtrade.Polymarket.Quoting.{touch, structurally_complete, is_incomplete, quote}
use somethingtrade.Polymarket.LocalBook.{
  book_of, is_market_invalid, finish, replace_levels, apply_book, change_level, note_missing,
  change_book, apply_price_change, reset_errors, close_best, apply_best_bid_ask,
}
use somethingtrade.Polymarket.Mismatch.{AgreesWith}
use somethingtrade.Polymarket.Agreement.{BothChecked, reported-Checked, SameBook-local_best}

-- Both sides have a best level, and the bid is below the ask.
abbrev pub Uncrossed : Option (ℕ × ℕ) → Option (ℕ × ℕ) → Type 0
Uncrossed none a = ⊥
Uncrossed (some b) none = ⊥
Uncrossed (some b) (some a) = b.0 < a.0

pub is_uncrossed-Uncrossed : (b a : Option (ℕ × ℕ)) → is_uncrossed b a ≡ true → Uncrossed b a
is_uncrossed-Uncrossed none a h = cc
is_uncrossed-Uncrossed (some b) none h = cc
is_uncrossed-Uncrossed (some b) (some a) h = ltb→lt b.0 a.0 h

-- The book that a quote was taken from can be traded on.
pub record IsSound (s : PolymarketLocalOrderBook) (q : PolymarketQuote) (b : TokenBook)
    : Type 0 where
  pub stored : find s.books q.token_id ≡ some b
  pub market : q.market_id ≡ b.metadata.market_id
  pub has_snapshot : b.has_snapshot ≡ true
  pub incomplete : b.incomplete ≡ false
  pub valid : member s.market_invalid q.market_id ≡ false
  pub uncrossed : Uncrossed (best_bid b.bids) (best_ask b.asks)

record Facts (b : TokenBook) : Type 0 where
  pub incomplete : b.incomplete ≡ false
  pub invalid : b.invalid ≡ false
  pub has_snapshot : b.has_snapshot ≡ true
  pub uncrossed : is_uncrossed (best_bid b.bids) (best_ask b.asks) ≡ true

all_four :
    (incomplete invalid has_snapshot uncrossed : Bool)
    → not (incomplete || (invalid || not (has_snapshot && (not invalid && uncrossed)))) ≡ true
    → (incomplete ≡ false) × (invalid ≡ false) × (has_snapshot ≡ true) × (uncrossed ≡ true)
all_four true i h u e = cc
all_four false true h u e = cc
all_four false false false u e = cc
all_four false false true false e = cc
all_four false false true true e = (refl, refl, refl, refl)

complete-Facts : (b : TokenBook) → not (is_incomplete b) ≡ true → Facts b
unfolding is_incomplete structurally_complete
complete-Facts b h =
    let (a, c, d, e) =
      all_four b.incomplete b.invalid b.has_snapshot
        (is_uncrossed (best_bid b.bids) (best_ask b.asks)) h in
    record { incomplete = a; invalid = c; has_snapshot = d; uncrossed = e }

-- The last part of an update quotes the book that it stores.
pub finish-IsSound :
    (s : PolymarketLocalOrderBook) (r : Received) (t : UpdateType) (before : Bool) (b : TokenBook)
    → b.invalid ≡ is_market_invalid s b
    → let (s', q) = finish s r t before b in q.book_complete ≡ true → IsSound s' q (touch r b)
unfolding finish quote touch
finish-IsSound s r t before b e h =
    let f = complete-Facts (touch r b) h in
    record {
      stored = find-set s.books b.token_id (touch r b);
      market = refl;
      has_snapshot = f.has_snapshot;
      incomplete = f.incomplete;
      valid = sym e ∙ f.invalid;
      uncrossed = is_uncrossed-Uncrossed (best_bid b.bids) (best_ask b.asks) f.uncrossed;
    }

change_level-kept :
    (m : PriceChange) (b : TokenBook)
    → ((change_level m b).metadata ≡ b.metadata)
      × ((change_level m b).has_snapshot ≡ b.has_snapshot)
unfolding change_level
change_level-kept m b = elim (Bool-cases (str_eq m.side "BUY")) [
  | inl buy ↦ simp buy (refl, refl)
  | inr other ↦ elim (Bool-cases (str_eq m.side "SELL")) [
    | inl sell ↦ simp (other, sell) (refl, refl)
    | inr neither ↦ simp (other, neither) (refl, refl)
  ]
]

note_missing-metadata :
    (has_snapshot : Bool) (b : TokenBook) → (note_missing has_snapshot b).metadata ≡ b.metadata
note_missing-metadata true b = refl
note_missing-metadata false b = refl

change_book-kept :
    (i : Bool) (m : PriceChange) (b : TokenBook)
    → ((change_book i m b).metadata ≡ b.metadata) × ((change_book i m b).invalid ≡ i)
unfolding change_book clear_resolved_overrides
change_book-kept i m b = (note_missing-metadata b.has_snapshot _ ∙ (change_level-kept m b).0, refl)

-- The reported prices are near the best prices of the book.
abbrev pub Reported : Settings → TokenBook → Option ℕ → Option ℕ → Type 0
Reported c b reported_bid reported_ask =
    AgreesWith c b.metadata.tick_size (local_best bid b) reported_bid
    × AgreesWith c b.metadata.tick_size (local_best ask b) reported_ask

checked-Reported :
    (c : Settings) (rb ra : Option ℕ) (b b' : TokenBook)
    → BothChecked c rb ra b b'
    → b'.incomplete ≡ false
    → Reported c b' rb ra
checked-Reported c rb ra b b' p h = (
  simp (SameBook-local_best bid b b' p.same, p.same.metadata) (p.bid_agrees h),
  simp (SameBook-local_best ask b b' p.same, p.same.metadata) (p.ask_agrees h),
)

-- What a complete quote after an update with reported prices shows.
abbrev pub SoundAndReported :
    PolymarketLocalOrderBook × PolymarketQuote → Option ℕ → Option ℕ → Type 0
SoundAndReported out rb ra =
    (b : TokenBook) × IsSound out.0 out.1 b × Reported out.0.settings b rb ra

-- An update ends with a book that the reported prices made of a book of the same market.
finish-Reported :
    (s : PolymarketLocalOrderBook) (r : Received) (t : UpdateType) (before : Bool)
    (rb ra : Option ℕ) (b : TokenBook)
    → b.invalid ≡ is_market_invalid s b
    → (b.incomplete ≡ false → Reported s.settings b rb ra)
    → (finish s r t before b).1.book_complete ≡ true
    → SoundAndReported (finish s r t before b) rb ra
unfolding finish touch
finish-Reported s r t before rb ra b i p h =
    let sound = finish-IsSound s r t before b i h in (touch r b, sound, p sound.incomplete)

member-market :
    (l : List String) (d d' : TokenBookMetadata)
    → d' ≡ d
    → member l d.market_id ≡ member l d'.market_id
member-market l d d' e = rw e refl

pub apply_price_change_complete :
    (r : Received) (m : PriceChange) (s : PolymarketLocalOrderBook)
    → (apply_price_change r m s).1.book_complete ≡ true
    → SoundAndReported (apply_price_change r m s) m.best_bid m.best_ask
unfolding apply_price_change
apply_price_change_complete r m s h =
    let b = book_of s m.asset_id m.market in
    let b1 = change_book (is_market_invalid s b) m b in
    let p =
      reported-Checked s.settings price_change r.received_ts m.best_bid m.best_ask b1
        s.mismatches in
    let (b2, mismatches) =
      apply_reported_best s.settings price_change r.received_ts m.best_bid m.best_ask b1
        s.mismatches in
    let kept = change_book-kept (is_market_invalid s b) m b in
    finish-Reported (record s { mismatches = mismatches }) r price_change (not b.has_snapshot)
      m.best_bid m.best_ask b2
      (p.same.invalid ∙ (kept.1 ∙ member-market s.market_invalid _ _ (p.same.metadata ∙ kept.0)))
      (λ k. checked-Reported s.settings m.best_bid m.best_ask b1 b2 p k) h

or-false : (a b : Bool) → (a || b) ≡ false → b ≡ false
or-false true b h = cc
or-false false b h = h

pub apply_best_bid_ask_complete :
    (r : Received) (m : BestBidAsk) (s : PolymarketLocalOrderBook)
    → (apply_best_bid_ask r m s).1.book_complete ≡ true
    → SoundAndReported (apply_best_bid_ask r m s) m.best_bid m.best_ask
unfolding apply_best_bid_ask reset_errors
apply_best_bid_ask_complete r m s h =
    let b = book_of s m.asset_id m.market in
    let b1 = reset_errors b in
    let p =
      reported-Checked s.settings best_bid_ask r.received_ts m.best_bid m.best_ask b1
        s.mismatches in
    let (b2, mismatches) =
      apply_reported_best s.settings best_bid_ask r.received_ts m.best_bid m.best_ask b1
        s.mismatches in
    finish-Reported (record s { mismatches = mismatches }) r best_bid_ask (not b.has_snapshot)
      m.best_bid m.best_ask (close_best b.has_snapshot (is_market_invalid s b) b2)
      (member-market s.market_invalid _ _ p.same.metadata)
      (λ k. checked-Reported s.settings m.best_bid m.best_ask b1 b2 p (or-false _ _ k)) h

pub apply_book_complete :
    (r : Received) (m : BookMessage) (s : PolymarketLocalOrderBook)
    → (apply_book r m s).1.book_complete ≡ true
    → (b : TokenBook) × IsSound (apply_book r m s).0 (apply_book r m s).1 b
unfolding apply_book replace_levels
apply_book_complete r m s h =
    let b = book_of s m.asset_id m.market in
    let b' = replace_levels (is_market_invalid s b) r m b in
    (touch r b', finish-IsSound s r book false b' refl h)

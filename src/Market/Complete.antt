-- ===== src/Market/Complete.antt =====
-- What `apply` makes of a quote, with its age written out.
use somethingtrade.Prelude.{
  ℕ, zero, suc, ◌+◌, ◌≤◌, ◌≡◌, ◌↔◌, refl, subst, true, false, Option, none, some, arith,
}
use somethingtrade.Prelude.Texts.{find, set, find-set, member}
use somethingtrade.Market.Types.{PolymarketQuote, quote, MarketState}
use somethingtrade.Market.Apply.{
  Now, or_ts, is_older, stale_by, is_stale_quote, stamped_quote, apply,
}
use somethingtrade.Market.Quotes.{stamped_quote-book_complete_iff, stamped_quote-token_id}

-- A wall clock time that is not zero decides; without one the next does.
abbrev IsRecentOr : ℕ → ℕ → Option ℕ → Type 0 → Type 0
IsRecentOr max_age now none Next = Next
IsRecentOr max_age now (some zero) Next = Next
IsRecentOr max_age now (some (suc t)) Next = now ≤ suc t + max_age

-- The last of the wall clock times decides whatever it is; without any, the quote has no age.
abbrev IsRecent : ℕ → ℕ → Option ℕ → Type 0
IsRecent max_age now none = Unit
IsRecent max_age now (some t) = now ≤ t + max_age

abbrev IsFreshAt : ℕ → Now → Option ℕ → PolymarketQuote → Type 0
IsFreshAt max_age now (some recv) q = now.1 ≤ recv + max_age
IsFreshAt max_age now none q =
    IsRecentOr max_age now.0 q.event_ts
      (IsRecentOr max_age now.0 q.received_ts (IsRecent max_age now.0 q.stamps.exchange_event_ts))

-- The quote is at most so old: since its monotonic time of receipt if it has one, and else since the
-- first of its event, receipt and exchange times that is set.
abbrev pub IsFresh : ℕ → Now → PolymarketQuote → Type 0
IsFresh max_age now q = IsFreshAt max_age now q.stamps.recv_monotonic_ns q

last_iff :
    (max_age now : ℕ) (o : Option ℕ) → (is_older max_age o now ≡ false) ↔ IsRecent max_age now o
last_iff max_age now none = (λ h. tt, λ h. refl)
last_iff max_age now (some t) = (λ h. ground arith, λ h. ground arith)

or_iff :
    (max_age now : ℕ) (o next : Option ℕ) (P : Type 0)
    → (is_older max_age next now ≡ false) ↔ P
    → (is_older max_age (or_ts o next) now ≡ false) ↔ IsRecentOr max_age now o P
or_iff max_age now none next P h = h
or_iff max_age now (some zero) next P h = h
or_iff max_age now (some (suc t)) next P h = (λ h. ground arith, λ h. ground arith)

stale_by_iff :
    (max_age : ℕ) (now : Now) (recv : Option ℕ) (q : PolymarketQuote)
    → (stale_by max_age recv
          (or_ts q.event_ts (or_ts q.received_ts q.stamps.exchange_event_ts))
          now.0
          now.1
        ≡ false)
      ↔ IsFreshAt max_age now recv q
stale_by_iff max_age now (some recv) q = (λ h. ground arith, λ h. ground arith)
stale_by_iff max_age now none q =
    or_iff max_age now.0 q.event_ts _ _
      (or_iff max_age now.0 q.received_ts _ _ (last_iff max_age now.0 q.stamps.exchange_event_ts))

is_stale_quote_iff :
    (max_age : ℕ) (now : Now) (q : PolymarketQuote)
    → (is_stale_quote max_age q now.0 now.1 ≡ false) ↔ IsFresh max_age now q
unfolding is_stale_quote
is_stale_quote_iff max_age now q = stale_by_iff max_age now q.stamps.recv_monotonic_ns q

-- `apply` of a quote returns a quote and stores the same under its token; it is complete exactly when
-- the quote came in complete, its market is not marked invalid, and it is at most as old as the limit: by
-- its monotonic time of receipt if it has one, and else by the first of its event, receipt and exchange
-- times that is set.
pub apply-book_complete_iff :
    (s : MarketState) (now : Now) (q : PolymarketQuote)
    → let (s', e') = apply now (quote q) s in
      (q' : PolymarketQuote) × (e' ≡ quote q')
      × (find s'.polymarket_quotes q.token_id ≡ some q')
      × ((q'.book_complete ≡ true) ↔ (
          (q.book_complete ≡ true)
          × (member s.market_invalid q.market_id ≡ false)
          × IsFresh s.max_polymarket_quote_age_ns now q))
unfolding apply
apply-book_complete_iff s now q =
    let q' = stamped_quote s now q in
    let (there, back) = stamped_quote-book_complete_iff s now q in
    let (fresh, not_stale) = is_stale_quote_iff s.max_polymarket_quote_age_ns now q in
    (
      q',
      refl,
      subst (λ k. find (set s.polymarket_quotes q'.token_id q') k ≡ some q')
          (stamped_quote-token_id s now q) (find-set s.polymarket_quotes q'.token_id q'),
      (
        λ h. let (complete, valid, young) = there h in (complete, valid, fresh young),
        λ h. back (h.0, h.1, not_stale h.2),
      ),
    )

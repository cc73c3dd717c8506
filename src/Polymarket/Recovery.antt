-- ===== src/Polymarket/Recovery.antt =====
-- What a `book` message restores, whatever came before it.
use somethingtrade.Prelude.{
  ℕ, ◌≡◌, refl, ◌↔◌, Bool, true, false, not, ◌&&◌, ◌||◌, Option, none, some, lt→ltb,
}
use somethingtrade.Prelude.Texts.{member}
use somethingtrade.Polymarket.Types.{PolymarketLocalOrderBook, Received, BookMessage}
use somethingtrade.Polymarket.Levels.{best_bid, best_ask, levels_to_dict, is_uncrossed}
use somethingtrade.Polymarket.Quoting.{touch, structurally_complete, is_incomplete, quote}
use somethingtrade.Polymarket.Reported.{price_of, size_of}
use somethingtrade.Polymarket.LocalBook.{
  book_of, is_market_invalid, finish, replace_levels, apply_book,
}
use somethingtrade.Polymarket.Complete.{Uncrossed, is_uncrossed-Uncrossed}

Uncrossed-is_uncrossed : (b a : Option (ℕ × ℕ)) → Uncrossed b a → is_uncrossed b a ≡ true
Uncrossed-is_uncrossed none a h = absurd h
Uncrossed-is_uncrossed (some b) none h = absurd h
Uncrossed-is_uncrossed (some b) (some a) h = lt→ltb b.0 a.0 h

-- The completeness of a book that was just replaced.
replaced_iff :
    (invalid uncrossed : Bool)
    → (not (false || (invalid || not (true && (not invalid && uncrossed)))) ≡ true)
      ↔ ((invalid ≡ false) × (uncrossed ≡ true))
replaced_iff true u = (λ h. cc, λ h. cc)
replaced_iff false true = (λ h. (refl, refl), λ h. refl)
replaced_iff false false = (λ h. cc, λ h. cc)

-- A snapshot gives a quote that is complete exactly when its market is not invalidated and its own
-- levels have a best bid below a best ask; whatever the book held before, the quote shows the best
-- prices of the snapshot, with their sizes.
pub apply_book-complete_iff :
    (r : Received) (m : BookMessage) (s : PolymarketLocalOrderBook)
    → let q = (apply_book r m s).1 in
      let bid = best_bid (levels_to_dict m.bids) in
      let ask = best_ask (levels_to_dict m.asks) in
      ((q.book_complete ≡ true)
        ↔ ((member s.market_invalid q.market_id ≡ false) × Uncrossed bid ask))
      × ((q.best_bid ≡ price_of bid) × (q.best_bid_size ≡ size_of bid))
      × (q.best_ask ≡ price_of ask)
      × (q.best_ask_size ≡ size_of ask)
unfolding apply_book finish quote touch replace_levels is_incomplete structurally_complete
apply_book-complete_iff r m s =
    let invalid = is_market_invalid s (book_of s m.asset_id m.market) in
    let bid = best_bid (levels_to_dict m.bids) in
    let ask = best_ask (levels_to_dict m.asks) in
    let iff = replaced_iff invalid (is_uncrossed bid ask) in
    (
      (
        λ h. let (v, u) = iff.0 h in (v, is_uncrossed-Uncrossed bid ask u),
        λ (v, u). iff.1 (v, Uncrossed-is_uncrossed bid ask u),
      ),
      (refl, refl),
      refl,
      refl,
    )

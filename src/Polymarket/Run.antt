-- ===== src/Polymarket/Run.antt =====
-- Runs of the local order book: the calls of its methods in any order, and the quotes that they give.
use somethingtrade.Prelude.{String, Option, none, some, List, [], ◌∷◌}
use somethingtrade.Prelude.Int.{ℤ}
use somethingtrade.Prelude.Texts.{Texts}
use somethingtrade.Polymarket.Types.{
  TokenBookMetadata, PolymarketQuote, PolymarketLocalOrderBook, Received, BookMessage, PriceChange,
  BestBidAsk,
}
use somethingtrade.Polymarket.LocalBook.{
  apply_book, apply_price_change, apply_best_bid_ask, mark_market_invalid, update_tick_size,
  update_token_metadata, reconnect,
}

-- A call of a method, with its arguments.
pub data Call : Type 0 where
  snapshot : Received → BookMessage → Call
  change : Received → PriceChange → Call
  reported : Received → BestBidAsk → Call
  invalidated : String → Call
  resized : String → Option String → ℤ → Call
  renewed : Texts TokenBookMetadata → List String → Call
  reconnected : Call

abbrev pub quoted :
    PolymarketLocalOrderBook × PolymarketQuote → PolymarketLocalOrderBook × Option PolymarketQuote
quoted (s, q) = (s, some q)

-- The state after a call, and the quote, if the call gives one.
unfoldable pub call :
    Call → PolymarketLocalOrderBook → PolymarketLocalOrderBook × Option PolymarketQuote
call (snapshot r m) s = quoted (apply_book r m s)
call (change r m) s = quoted (apply_price_change r m s)
call (reported r m) s = quoted (apply_best_bid_ask r m s)
call (invalidated market_id) s = (mark_market_invalid market_id s, none)
call (resized market_id token_id tick_size) s =
    (update_tick_size market_id token_id tick_size s, none)
call (renewed token_metadata active) s = (update_token_metadata token_metadata active s, none)
call reconnected s = (reconnect s, none)

abbrev pub with_quote : Option PolymarketQuote → List PolymarketQuote → List PolymarketQuote
with_quote none quotes = quotes
with_quote (some q) quotes = q ∷ quotes

-- The state after the calls, and the quotes in their order.
unfoldable pub run :
    List Call → PolymarketLocalOrderBook → PolymarketLocalOrderBook × List PolymarketQuote
run [] s = (s, [])
run (c ∷ cs) s = let (s1, q) = call c s in let (s2, quotes) = run cs s1 in (s2, with_quote q quotes)

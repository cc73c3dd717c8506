-- ===== src/Polymarket/Tally.antt =====
-- The counts of a token over a run of calls.
use somethingtrade.Prelude.{
  ℕ, zero, suc, ◌≡◌, refl, sym, ap, ◌∙◌, String, Bool, false, not, Option, none, some, List, [],
  ◌∷◌, arith, All,
}
use somethingtrade.Prelude.Int.{ℤ, pos, negsuc}
use somethingtrade.Prelude.Texts.{Texts, find}
use somethingtrade.Polymarket.Types.{
  UpdateType, book, price_change, best_bid_ask, TokenBookMetadata, TokenBook, TokenBookReadiness,
  PolymarketQuote, PolymarketLocalOrderBook, Received,
}
use somethingtrade.Polymarket.Reported.{apply_reported_best}
use somethingtrade.Polymarket.Quoting.{quote, touch}
use somethingtrade.Polymarket.LocalBook.{
  book_of, is_market_invalid, finish, replace_levels, change_book, reset_errors, close_best,
  apply_book, apply_price_change, apply_best_bid_ask, mark_market_invalid, resize_token,
  resize_tokens, chosen_tokens, update_tick_size, select, renew_tokens, update_token_metadata,
  reconnect,
}
use somethingtrade.Polymarket.Run.{
  Call, snapshot, change, reported, invalidated, resized, renewed, reconnected, call, run,
  with_quote,
}
use somethingtrade.Polymarket.Counting.{
  Counts, token_counts, count_for, record_readiness-counts, add_readiness-counts, reconnect-counts,
}
use somethingtrade.Polymarket.Safety.{All-with_quote}

abbrev count_option : String → Option PolymarketQuote → Counts → Counts
count_option token none n = n
count_option token (some q) n = count_for token q n

-- The counts after the quotes of a run, of which those of the token count.
abbrev pub tally : String → List PolymarketQuote → Counts → Counts
tally token [] n = n
tally token (q ∷ quotes) n = tally token quotes (count_for token q n)

resize_token-readiness :
    (n : ℕ) (o : Option TokenBookMetadata) (token : String) (s : PolymarketLocalOrderBook)
    → (resize_token n o token s).readiness ≡ s.readiness
resize_token-readiness n none token s = refl
resize_token-readiness n (some m) token s = refl

resize_tokens-readiness :
    (n : ℕ) (tokens : List String) (s : PolymarketLocalOrderBook)
    → (resize_tokens n tokens s).readiness ≡ s.readiness
resize_tokens-readiness n [] s = refl
resize_tokens-readiness n (token ∷ tokens) s =
    resize_tokens-readiness n tokens _
    ∙ resize_token-readiness n (find s.token_metadata token) token s

update_tick_size-readiness :
    (market_id : String) (token_id : Option String) (tick_size : ℤ) (s : PolymarketLocalOrderBook)
    → (update_tick_size market_id token_id tick_size s).readiness ≡ s.readiness
unfolding update_tick_size
update_tick_size-readiness market_id token_id (pos zero) s = refl
update_tick_size-readiness market_id token_id (pos (suc n)) s =
    resize_tokens-readiness (suc n) (chosen_tokens market_id token_id s.token_metadata) s
update_tick_size-readiness market_id token_id (negsuc n) s = refl

renew_tokens-counts :
    (l : Texts TokenBookMetadata) (s : PolymarketLocalOrderBook) (token : String)
    → token_counts (renew_tokens l s).readiness token ≡ token_counts s.readiness token
renew_tokens-counts [] s token = refl
renew_tokens-counts ((k, m) ∷ l) s token =
    renew_tokens-counts l _ token
    ∙ add_readiness-counts s.readiness (find s.readiness k) k m.market_id token refl

-- The last part of an update counts its quote.
finish-counts :
    (s : PolymarketLocalOrderBook) (r : Received) (t : UpdateType) (before : Bool) (b : TokenBook)
    (token : String)
    → let (s', q) = finish s r t before b in
      token_counts s'.readiness token ≡ count_for token q (token_counts s.readiness token)
unfolding finish quote touch
finish-counts s r t before b token =
    record_readiness-counts t before r.received_ts (touch r b) (quote s r t (touch r b)) s.readiness
      token refl

call-counts :
    (c : Call) (s : PolymarketLocalOrderBook) (token : String)
    → let (s', q) = call c s in
      token_counts s'.readiness token ≡ count_option token q (token_counts s.readiness token)
unfolding call apply_book apply_price_change apply_best_bid_ask mark_market_invalid
    update_token_metadata reconnect
call-counts (snapshot r m) s token =
    let b = book_of s m.asset_id m.market in
    finish-counts s r book false (replace_levels (is_market_invalid s b) r m b) token
call-counts (change r m) s token =
    let b = book_of s m.asset_id m.market in
    let (b', mismatches) =
      apply_reported_best s.settings price_change r.received_ts m.best_bid m.best_ask
        (change_book (is_market_invalid s b) m b) s.mismatches in
    finish-counts (record s { mismatches = mismatches }) r price_change (not b.has_snapshot) b'
      token
call-counts (reported r m) s token =
    let b = book_of s m.asset_id m.market in
    let (b', mismatches) =
      apply_reported_best s.settings best_bid_ask r.received_ts m.best_bid m.best_ask
        (reset_errors b) s.mismatches in
    finish-counts (record s { mismatches = mismatches }) r best_bid_ask (not b.has_snapshot)
      (close_best b.has_snapshot (is_market_invalid s b) b') token
call-counts (invalidated market_id) s token = refl
call-counts (resized market_id token_id tick_size) s token =
    ap (λ (d : Texts TokenBookReadiness). token_counts d token)
      (update_tick_size-readiness market_id token_id tick_size s)
call-counts (renewed token_metadata active) s token =
    let selected = select active token_metadata in
    renew_tokens-counts selected (record s { token_metadata = selected }) token
call-counts reconnected s token = reconnect-counts s.readiness token

tally-with_quote :
    (token : String) (o : Option PolymarketQuote) (l : List PolymarketQuote) (n : Counts)
    → tally token (with_quote o l) n ≡ tally token l (count_option token o n)
tally-with_quote token none l n = refl
tally-with_quote token (some q) l n = refl

-- Over any run of calls, the numbers of complete, of incomplete and of stale quotes that are kept for a
-- token grow by those of the quotes that the run gives for that token.
pub run-counts :
    (cs : List Call) (s : PolymarketLocalOrderBook) (token : String)
    → let (s', quotes) = run cs s in
      token_counts s'.readiness token ≡ tally token quotes (token_counts s.readiness token)
unfolding run
run-counts [] s token = refl
run-counts (c ∷ cs) s token =
    run-counts cs (call c s).0 token
    ∙ (ap (tally token (run cs (call c s).0).1) (call-counts c s token)
        ∙ sym (
            tally-with_quote token (call c s).1 (run cs (call c s).0).1
              (token_counts s.readiness token)))

-- A book is touched at the time of the message before it is quoted.
finish-not_stale :
    (s : PolymarketLocalOrderBook) (r : Received) (t : UpdateType) (before : Bool) (b : TokenBook)
    → (finish s r t before b).1.book_stale ≡ false
unfolding finish quote touch
finish-not_stale s r t before b = ground arith

by_some : (q p : PolymarketQuote) → q.book_stale ≡ false → some q ≡ some p → p.book_stale ≡ false
by_some q p h e = cc

call-not_stale :
    (c : Call) (s : PolymarketLocalOrderBook) (q : PolymarketQuote)
    → (call c s).1 ≡ some q
    → q.book_stale ≡ false
unfolding call apply_book apply_price_change apply_best_bid_ask
call-not_stale (snapshot r m) s q e = by_some _ q (finish-not_stale s r book false _) e
call-not_stale (change r m) s q e = by_some _ q (finish-not_stale _ r price_change _ _) e
call-not_stale (reported r m) s q e = by_some _ q (finish-not_stale _ r best_bid_ask _ _) e
call-not_stale (invalidated market_id) s q e = cc
call-not_stale (resized market_id token_id tick_size) s q e = cc
call-not_stale (renewed token_metadata active) s q e = cc
call-not_stale reconnected s q e = cc

-- No quote of any run of calls is marked stale, however much time passes between the calls.
pub run-not_stale :
    (cs : List Call) (s : PolymarketLocalOrderBook) → All (λ q. q.book_stale ≡ false) (run cs s).1
unfolding run
run-not_stale [] s = tt
run-not_stale (c ∷ cs) s =
    All-with_quote (λ q. q.book_stale ≡ false) (call c s).1 (run cs (call c s).0).1
      (call-not_stale c s) (run-not_stale cs (call c s).0)

-- ===== src/Polymarket/Safety.antt =====
-- What holds for the quotes of any call, and of any run.
use somethingtrade.Prelude.{
  ℕ, suc, zero, ◌≡◌, refl, subst, ◌∙◌, inl, inr, String, str_eq, Bool, true, false, ◌&&◌, Option,
  none, some, List, [], ◌∷◌, All, Bool-cases, eq_iff,
}
use somethingtrade.Prelude.Int.{ℤ, pos, negsuc}
use somethingtrade.Prelude.Texts.{Texts, find, member, member-add, member-add_self}
use somethingtrade.Polymarket.Types.{
  TokenBookMetadata, TokenBook, PolymarketQuote, PolymarketLocalOrderBook,
}
use somethingtrade.Polymarket.LocalBook.{
  finish, apply_book, apply_price_change, apply_best_bid_ask, mark_market_invalid, resize_token,
  resize_tokens, chosen_tokens, update_tick_size, select, renew_tokens, update_token_metadata,
  reconnect,
}
use somethingtrade.Polymarket.Complete.{
  IsSound, Reported, apply_book_complete, apply_price_change_complete, apply_best_bid_ask_complete,
}
use somethingtrade.Polymarket.Run.{
  Call, snapshot, change, reported, invalidated, resized, renewed, reconnected, quoted, call, run,
  with_quote,
}

-- The best prices that a call reports.
abbrev pub reported_bid : Call → Option ℕ
reported_bid (change r m) = m.best_bid
reported_bid (reported r m) = m.best_bid
reported_bid c = none

abbrev pub reported_ask : Call → Option ℕ
reported_ask (change r m) = m.best_ask
reported_ask (reported r m) = m.best_ask
reported_ask c = none

-- Sound, with the reported prices near those of the book.
abbrev pub ShowsSound : Call → PolymarketLocalOrderBook → PolymarketQuote → Type 0
ShowsSound c s q =
    (b : TokenBook) × IsSound s q b × Reported s.settings b (reported_bid c) (reported_ask c)

by_quote :
    (P : PolymarketLocalOrderBook → PolymarketQuote → Type 0)
    (out : PolymarketLocalOrderBook × PolymarketQuote) (q : PolymarketQuote)
    → (out.1.book_complete ≡ true → P out.0 out.1)
    → (quoted out).1 ≡ some q
    → q.book_complete ≡ true
    → P (quoted out).0 q
by_quote P (s, p) q f e h = let e' : p ≡ q = cc in subst (P s) e' (f (rw e' h))

-- A quote that is marked complete was taken from the book that is stored for its token. That book has
-- had a snapshot, its market is not invalidated, it has a best bid below a best ask, and each best
-- price that the call reported is near the one of the book: equal to it in the strict mode, within
-- the tolerance in the tolerant mode.
pub call_complete :
    (c : Call) (s : PolymarketLocalOrderBook) (q : PolymarketQuote)
    → (call c s).1 ≡ some q
    → q.book_complete ≡ true
    → ShowsSound c (call c s).0 q
unfolding call
call_complete (snapshot r m) s q e h =
    by_quote (ShowsSound (snapshot r m)) (apply_book r m s) q
      (λ k. let (b, sound) = apply_book_complete r m s k in (b, sound, (tt, tt))) e h
call_complete (change r m) s q e h =
    by_quote (ShowsSound (change r m)) (apply_price_change r m s) q
      (apply_price_change_complete r m s) e h
call_complete (reported r m) s q e h =
    by_quote (ShowsSound (reported r m)) (apply_best_bid_ask r m s) q
      (apply_best_bid_ask_complete r m s) e h
call_complete (invalidated market_id) s q e h = cc
call_complete (resized market_id token_id tick_size) s q e h = cc
call_complete (renewed token_metadata active) s q e h = cc
call_complete reconnected s q e h = cc

-- What the methods that only change metadata leave as it is.
pub record SameRest (s s' : PolymarketLocalOrderBook) : Type 0 where
  pub market_invalid : s'.market_invalid ≡ s.market_invalid
  pub settings : s'.settings ≡ s.settings
  pub mismatches : s'.mismatches ≡ s.mismatches

SameRest-refl : (s : PolymarketLocalOrderBook) → SameRest s s
SameRest-refl s = record { market_invalid = refl; settings = refl; mismatches = refl }

SameRest-trans : (a b c : PolymarketLocalOrderBook) → SameRest a b → SameRest b c → SameRest a c
SameRest-trans a b c p q = record {
  market_invalid = q.market_invalid ∙ p.market_invalid;
  settings = q.settings ∙ p.settings;
  mismatches = q.mismatches ∙ p.mismatches;
}

resize_token-SameRest :
    (n : ℕ) (o : Option TokenBookMetadata) (token : String) (s : PolymarketLocalOrderBook)
    → SameRest s (resize_token n o token s)
resize_token-SameRest n none token s = SameRest-refl s
resize_token-SameRest n (some m) token s = record {
  market_invalid = refl;
  settings = refl;
  mismatches = refl;
}

resize_tokens-SameRest :
    (n : ℕ) (tokens : List String) (s : PolymarketLocalOrderBook)
    → SameRest s (resize_tokens n tokens s)
resize_tokens-SameRest n [] s = SameRest-refl s
resize_tokens-SameRest n (token ∷ tokens) s =
    SameRest-trans _ _ _ (resize_token-SameRest n (find s.token_metadata token) token s)
      (resize_tokens-SameRest n tokens _)

pub update_tick_size-SameRest :
    (market_id : String) (token_id : Option String) (tick_size : ℤ) (s : PolymarketLocalOrderBook)
    → SameRest s (update_tick_size market_id token_id tick_size s)
unfolding update_tick_size
update_tick_size-SameRest market_id token_id (pos zero) s = SameRest-refl s
update_tick_size-SameRest market_id token_id (pos (suc n)) s =
    resize_tokens-SameRest (suc n) (chosen_tokens market_id token_id s.token_metadata) s
update_tick_size-SameRest market_id token_id (negsuc n) s = SameRest-refl s

renew_tokens-SameRest :
    (l : Texts TokenBookMetadata) (s : PolymarketLocalOrderBook) → SameRest s (renew_tokens l s)
renew_tokens-SameRest [] s = SameRest-refl s
renew_tokens-SameRest ((token, m) ∷ l) s =
    SameRest-trans _ _ _ (record { market_invalid = refl; settings = refl; mismatches = refl })
      (renew_tokens-SameRest l _)

pub update_token_metadata-SameRest :
    (l : Texts TokenBookMetadata) (active : List String) (s : PolymarketLocalOrderBook)
    → SameRest s (update_token_metadata l active s)
unfolding update_token_metadata
update_token_metadata-SameRest l active s =
    let selected = select active l in
    SameRest-trans s (record s { token_metadata = selected }) _
      (record { market_invalid = refl; settings = refl; mismatches = refl })
      (renew_tokens-SameRest selected (record s { token_metadata = selected }))

-- A market that is invalidated stays so.
call-invalid :
    (id : String) (c : Call) (s : PolymarketLocalOrderBook)
    → member s.market_invalid id ≡ true
    → member (call c s).0.market_invalid id ≡ true
unfolding call apply_book apply_price_change apply_best_bid_ask finish mark_market_invalid reconnect
call-invalid id (snapshot r m) s h = h
call-invalid id (change r m) s h = h
call-invalid id (reported r m) s h = h
call-invalid id (invalidated market_id) s h = member-add market_id id s.market_invalid h
call-invalid id (resized market_id token_id tick_size) s h =
    simp ((update_tick_size-SameRest market_id token_id tick_size s).market_invalid) h
call-invalid id (renewed token_metadata active) s h =
    simp ((update_token_metadata-SameRest token_metadata active s).market_invalid) h
call-invalid id reconnected s h = h

-- The quote offers a price of the market.
abbrev pub is_offered : String → PolymarketQuote → Bool
is_offered market_id q = q.book_complete && str_eq q.market_id market_id

not_offered :
    (id : String) (c : Call) (s : PolymarketLocalOrderBook) (q : PolymarketQuote)
    → member s.market_invalid id ≡ true
    → (call c s).1 ≡ some q
    → is_offered id q ≡ false
not_offered id c s q h e = elim (Bool-cases q.book_complete) [
  | inr incomplete ↦ rw incomplete refl
  | inl complete ↦ elim (Bool-cases (str_eq q.market_id id)) [
    | inr other ↦ rw (complete, other) refl
    | inl same ↦
        let (b, sound, r) = call_complete c s q e complete in
        let at : q.market_id ≡ id = (eq_iff q.market_id id).0 same in
        let valid : member (call c s).0.market_invalid id ≡ false =
          subst (λ m. member (call c s).0.market_invalid m ≡ false) at sound.valid in
        let still = call-invalid id c s h in cc
  ]
]

pub All-with_quote :
    (P : PolymarketQuote → Type 0) (o : Option PolymarketQuote) (l : List PolymarketQuote)
    → ((q : PolymarketQuote) → o ≡ some q → P q)
    → All P l
    → All P (with_quote o l)
All-with_quote P none l f h = h
All-with_quote P (some q) l f h = (f q refl, h)

run-not_offered :
    (id : String) (cs : List Call) (s : PolymarketLocalOrderBook)
    → member s.market_invalid id ≡ true
    → All (λ q. is_offered id q ≡ false) (run cs s).1
unfolding run
run-not_offered id [] s h = tt
run-not_offered id (c ∷ cs) s h =
    All-with_quote (λ q. is_offered id q ≡ false) (call c s).1 (run cs (call c s).0).1
      (λ q e. not_offered id c s q h e) (run-not_offered id cs (call c s).0 (call-invalid id c s h))

-- After a market is invalidated, no quote of any run of calls is both of that market and marked
-- complete.
pub run-invalidated :
    (id : String) (cs : List Call) (s : PolymarketLocalOrderBook)
    → All (λ q. is_offered id q ≡ false) (run cs (mark_market_invalid id s)).1
unfolding mark_market_invalid
run-invalidated id cs s = run-not_offered id cs _ (member-add_self id s.market_invalid)

-- ===== src/Polymarket/LocalBook.antt =====
-- The methods of `PolymarketLocalOrderBook` of bot/app/marketdata/polymarket_orderbook.py that change
-- its state: the constructor, `_book`, `apply_book`, `apply_price_change`, `apply_best_bid_ask`,
-- `mark_market_invalid`, `update_tick_size`, `update_token_metadata` and `record_reconnect`.
use somethingtrade.Prelude.{
  ℕ, suc, zero, String, str_eq, Bool, true, false, not, ◌||◌, Option, none, some, List, [], ◌∷◌,
  if◌then◌else◌,
}
use somethingtrade.Prelude.Int.{ℤ, pos, negsuc}
use somethingtrade.Prelude.Texts.{Texts, find, set, member, add}
use somethingtrade.Polymarket.Types.{
  UpdateType, book, price_change, best_bid_ask, BookError, missing_snapshot, market_invalidated,
  unsupported_price_change_side, TokenBookMetadata, TokenBook, TokenBookReadiness, PolymarketQuote,
  PolymarketLocalOrderBook, Settings, Received, BookMessage, PriceChange, BestBidAsk,
}
use somethingtrade.Polymarket.Levels.{set_level, levels_to_dict}
use somethingtrade.Polymarket.Reported.{apply_reported_best, clear_resolved_overrides}
use somethingtrade.Polymarket.Quoting.{touch, quote}
use somethingtrade.Polymarket.Readiness.{
  new_readiness, add_readiness, record_readiness, record_reconnect,
}

abbrev new_readiness_of : Texts TokenBookMetadata → Texts TokenBookReadiness
new_readiness_of [] = []
new_readiness_of ((token, m) ∷ l) = (token, new_readiness token m.market_id) ∷ new_readiness_of l

unfoldable pub init : Settings → Texts TokenBookMetadata → PolymarketLocalOrderBook
init settings token_metadata = record {
  settings = settings;
  token_metadata = token_metadata;
  books = [];
  readiness = new_readiness_of token_metadata;
  market_invalid = [];
  mismatches = record {
    tick_diffs = [];
    by_update_type = record { books = 0; price_changes = 0; best_bid_asks = 0 };
    sample_counts = [];
    samples = [];
  };
}

abbrev unknown_metadata : Settings → String → TokenBookMetadata
unknown_metadata settings market = record {
  condition_id = none;
  market_id = market;
  side_label = "UNKNOWN";
  market_slug = none;
  base_asset = none;
  duration_minutes = none;
  token_outcome = none;
  tick_size = settings.default_tick_size;
}

abbrev pub new_book : String → TokenBookMetadata → TokenBook
new_book token_id metadata = record {
  token_id = token_id;
  metadata = metadata;
  bids = [];
  asks = [];
  last_hash = none;
  last_event_ts = none;
  last_received_ts = none;
  update_count = 0;
  has_snapshot = false;
  incomplete = true;
  invalid = false;
  validation_error = none;
  reported_best_validation_ok = true;
  best_bid_override = none;
  best_ask_override = none;
  last_snapshot_hash = none;
  last_book_hash = none;
}

abbrev or_unknown : Option TokenBookMetadata → Settings → String → TokenBookMetadata
or_unknown none settings market = unknown_metadata settings market
or_unknown (some m) settings market = m

abbrev or_new_book : Option TokenBook → String → TokenBookMetadata → TokenBook
or_new_book none token_id metadata = new_book token_id metadata
or_new_book (some b) token_id metadata = b

-- `_book`: the book of a token, a new one if there is none. The caller stores it.
unfoldable pub book_of : PolymarketLocalOrderBook → String → String → TokenBook
book_of s token_id market =
    or_new_book (find s.books token_id) token_id
      (or_unknown (find s.token_metadata token_id) s.settings market)

-- `market_id in self._market_invalid`
abbrev pub is_market_invalid : PolymarketLocalOrderBook → TokenBook → Bool
is_market_invalid s b = member s.market_invalid b.metadata.market_id

-- The end that the three updates share: the book is touched and quoted, and the quote is counted.
unfoldable pub finish :
    PolymarketLocalOrderBook
    → Received
    → UpdateType
    → Bool
    → TokenBook
    → PolymarketLocalOrderBook × PolymarketQuote
finish s r update_type before_snapshot b =
    let b' = touch r b in
    let q = quote s r update_type b' in
    (
      record s {
        books = set s.books b'.token_id b';
        readiness = record_readiness update_type before_snapshot r.received_ts b' q s.readiness;
      },
      q,
    )

-- The book that a snapshot leaves.
unfoldable pub replace_levels : Bool → Received → BookMessage → TokenBook → TokenBook
replace_levels is_invalid r m b = record b {
  bids = levels_to_dict m.bids;
  asks = levels_to_dict m.asks;
  has_snapshot = true;
  incomplete = false;
  invalid = is_invalid;
  best_bid_override = none;
  best_ask_override = none;
  validation_error = none;
  reported_best_validation_ok = true;
  last_snapshot_hash = r.sequence;
}

unfoldable pub apply_book :
    Received → BookMessage → PolymarketLocalOrderBook → PolymarketLocalOrderBook × PolymarketQuote
apply_book r m s =
    let b = book_of s m.asset_id m.market in
    finish s r book false (replace_levels (is_market_invalid s b) r m b)

-- The level of a changed price.
unfoldable pub change_level : PriceChange → TokenBook → TokenBook
change_level m b =
    if str_eq m.side "BUY"
    then record b { bids = set_level b.bids m.price m.size }
    else if str_eq m.side "SELL"
    then record b { asks = set_level b.asks m.price m.size }
    else record b { validation_error = some (unsupported_price_change_side m.side) }

abbrev or_missing : Option BookError → Option BookError
or_missing none = some missing_snapshot
or_missing (some e) = some e

-- A book without a snapshot is not complete.
abbrev pub note_missing : Bool → TokenBook → TokenBook
note_missing true b = b
note_missing false b = record b {
  incomplete = true;
  validation_error = or_missing b.validation_error;
}

-- The book before the reported prices are looked at.
unfoldable pub change_book : Bool → PriceChange → TokenBook → TokenBook
change_book is_invalid m b =
    let b1 = record (change_level m b) { reported_best_validation_ok = true } in
    clear_resolved_overrides (record (note_missing b.has_snapshot b1) { invalid = is_invalid })

unfoldable pub apply_price_change :
    Received → PriceChange → PolymarketLocalOrderBook → PolymarketLocalOrderBook × PolymarketQuote
apply_price_change r m s =
    let b = book_of s m.asset_id m.market in
    let (b', mismatches) =
      apply_reported_best s.settings price_change r.received_ts m.best_bid m.best_ask
        (change_book (is_market_invalid s b) m b) s.mismatches in
    finish (record s { mismatches = mismatches }) r price_change (not b.has_snapshot) b'

abbrev pub missing_error : Bool → Option BookError
missing_error true = none
missing_error false = some missing_snapshot

unfoldable pub reset_errors : TokenBook → TokenBook
reset_errors b = record b {
  incomplete = not b.has_snapshot;
  validation_error = missing_error b.has_snapshot;
  reported_best_validation_ok = true;
}

-- The book after the reported prices are looked at.
abbrev pub close_best : Bool → Bool → TokenBook → TokenBook
close_best has_snapshot is_invalid b = record b {
  incomplete = not has_snapshot || b.incomplete;
  invalid = is_invalid;
}

unfoldable pub apply_best_bid_ask :
    Received → BestBidAsk → PolymarketLocalOrderBook → PolymarketLocalOrderBook × PolymarketQuote
apply_best_bid_ask r m s =
    let b = book_of s m.asset_id m.market in
    let (b', mismatches) =
      apply_reported_best s.settings best_bid_ask r.received_ts m.best_bid m.best_ask
        (reset_errors b) s.mismatches in
    finish (record s { mismatches = mismatches }) r best_bid_ask (not b.has_snapshot)
      (close_best b.has_snapshot (is_market_invalid s b) b')

abbrev invalidate : String → TokenBook → TokenBook
invalidate market_id b =
    if str_eq b.metadata.market_id market_id
    then record b { invalid = true; incomplete = true; validation_error = some market_invalidated }
    else b

abbrev invalidate_all : String → Texts TokenBook → Texts TokenBook
invalidate_all market_id [] = []
invalidate_all market_id ((token, b) ∷ l) =
    (token, invalidate market_id b) ∷ invalidate_all market_id l

unfoldable pub mark_market_invalid : String → PolymarketLocalOrderBook → PolymarketLocalOrderBook
mark_market_invalid market_id s = record s {
  market_invalid = add market_id s.market_invalid;
  books = invalidate_all market_id s.books;
}

-- `book.metadata = metadata`, where the token has a book.
abbrev renew_book :
    Option TokenBook → String → TokenBookMetadata → Texts TokenBook → Texts TokenBook
renew_book none token metadata books = books
renew_book (some b) token metadata books = set books token (record b { metadata = metadata })

abbrev pub resize_token :
    ℕ → Option TokenBookMetadata → String → PolymarketLocalOrderBook → PolymarketLocalOrderBook
resize_token tick_size none token s = s
resize_token tick_size (some metadata) token s =
    let updated = record metadata { tick_size = tick_size } in
    record s {
      token_metadata = set s.token_metadata token updated;
      books = renew_book (find s.books token) token updated s.books;
    }

abbrev pub resize_tokens : ℕ → List String → PolymarketLocalOrderBook → PolymarketLocalOrderBook
resize_tokens tick_size [] s = s
resize_tokens tick_size (token ∷ tokens) s =
    resize_tokens tick_size tokens (resize_token tick_size (find s.token_metadata token) token s)

abbrev pub tokens_of_market : String → Texts TokenBookMetadata → List String
tokens_of_market market_id [] = []
tokens_of_market market_id ((token, m) ∷ l) =
    let rest = tokens_of_market market_id l in
    if str_eq m.market_id market_id then token ∷ rest else rest

abbrev pub chosen_tokens : String → Option String → Texts TokenBookMetadata → List String
chosen_tokens market_id none l = tokens_of_market market_id l
chosen_tokens market_id (some token) l = token ∷ []

unfoldable pub update_tick_size :
    String → Option String → ℤ → PolymarketLocalOrderBook → PolymarketLocalOrderBook
update_tick_size market_id token_id (pos zero) s = s
update_tick_size market_id token_id (pos (suc n)) s =
    resize_tokens (suc n) (chosen_tokens market_id token_id s.token_metadata) s
update_tick_size market_id token_id (negsuc n) s = s

abbrev pub select : List String → Texts TokenBookMetadata → Texts TokenBookMetadata
select active [] = []
select active ((token, m) ∷ l) =
    let rest = select active l in if member active token then (token, m) ∷ rest else rest

abbrev pub renew_tokens :
    Texts TokenBookMetadata → PolymarketLocalOrderBook → PolymarketLocalOrderBook
renew_tokens [] s = s
renew_tokens ((token, m) ∷ l) s = renew_tokens l (record s {
  readiness = add_readiness (find s.readiness token) token m.market_id s.readiness;
  books = renew_book (find s.books token) token m s.books;
})

unfoldable pub update_token_metadata :
    Texts TokenBookMetadata → List String → PolymarketLocalOrderBook → PolymarketLocalOrderBook
update_token_metadata token_metadata active s =
    let selected = select active token_metadata in
    renew_tokens selected (record s { token_metadata = selected })

unfoldable pub reconnect : PolymarketLocalOrderBook → PolymarketLocalOrderBook
reconnect s = record s { readiness = record_reconnect s.readiness }

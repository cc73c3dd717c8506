-- ===== src/Polymarket/Readiness.antt =====
-- What is counted for each token: `_record_readiness`, `_increment_readiness_error`, `_readiness_for`
-- and `record_reconnect` of bot/app/marketdata/polymarket_orderbook.py.
use somethingtrade.Prelude.{
  ℕ, ◌+◌, String, str_eq, Bool, true, false, ◌&&◌, Option, none, some, List, [], ◌∷◌, ◌==◌,
  if◌then◌else◌,
}
use somethingtrade.Prelude.Texts.{Texts, find, set}
use somethingtrade.Polymarket.Types.{
  UpdateType, book, price_change, best_bid_ask, BookError, reported_best_bid_mismatch,
  reported_best_ask_mismatch, best_bid_size_unknown, best_ask_size_unknown, missing_snapshot,
  price_change_before_snapshot, best_bid_ask_before_snapshot, book_structurally_incomplete,
  crossed_book, empty_book, market_invalidated, unsupported_price_change_side, TokenBook,
  TokenBookReadiness, PolymarketQuote,
}
use somethingtrade.Polymarket.Reported.{count_type}

-- A number for each error, and the text that comes with it.
abbrev error_code : BookError → ℕ
error_code reported_best_bid_mismatch = 0
error_code reported_best_ask_mismatch = 1
error_code best_bid_size_unknown = 2
error_code best_ask_size_unknown = 3
error_code missing_snapshot = 4
error_code price_change_before_snapshot = 5
error_code best_bid_ask_before_snapshot = 6
error_code book_structurally_incomplete = 7
error_code crossed_book = 8
error_code empty_book = 9
error_code market_invalidated = 10
error_code (unsupported_price_change_side side) = 11

abbrev error_side : BookError → String
error_side (unsupported_price_change_side side) = side
error_side error = ""

abbrev pub same_error : BookError → BookError → Bool
same_error a b = (error_code a == error_code b) && str_eq (error_side a) (error_side b)

-- `d[reason] = d.get(reason, 0) + 1`
abbrev pub count_reason : BookError → List (BookError × ℕ) → List (BookError × ℕ)
count_reason reason [] = (reason, 1) ∷ []
count_reason reason ((e, n) ∷ counts) =
    if same_error e reason then (e, n + 1) ∷ counts else (e, n) ∷ count_reason reason counts

unfoldable pub increment_readiness_error :
    BookError → UpdateType → TokenBookReadiness → TokenBookReadiness
increment_readiness_error reason update_type r = record r {
  validation_error_count_by_reason = count_reason reason r.validation_error_count_by_reason;
  validation_error_count_by_update_type =
      count_type update_type r.validation_error_count_by_update_type;
}

-- The time of the first event, once it is known.
abbrev pub first_of : Option ℕ → ℕ → Option ℕ
first_of none now = some now
first_of (some t) now = some t

-- A message counts for its type, and for its coming before a snapshot.
unfoldable pub record_update_type : UpdateType → Bool → ℕ → TokenBookReadiness → TokenBookReadiness
record_update_type book before_snapshot now r = record r {
  snapshot_count = r.snapshot_count + 1;
  first_book_snapshot_ts_ns = first_of r.first_book_snapshot_ts_ns now;
}
record_update_type price_change false now r = record r { delta_count = r.delta_count + 1 }
record_update_type price_change true now r =
    increment_readiness_error price_change_before_snapshot price_change (record r {
      delta_count = r.delta_count + 1;
      price_change_before_snapshot_count = r.price_change_before_snapshot_count + 1;
    })
record_update_type best_bid_ask false now r = r
record_update_type best_bid_ask true now r =
    increment_readiness_error best_bid_ask_before_snapshot best_bid_ask
      (record r { best_bid_ask_before_snapshot_count = r.best_bid_ask_before_snapshot_count + 1 })

unfoldable pub record_complete : Bool → ℕ → TokenBookReadiness → TokenBookReadiness
record_complete true now r = record r {
  book_complete_true_count = r.book_complete_true_count + 1;
  first_complete_quote_ts_ns = first_of r.first_complete_quote_ts_ns now;
}
record_complete false now r = record r {
  book_complete_false_count = r.book_complete_false_count + 1;
}

unfoldable pub record_stale : Bool → TokenBookReadiness → TokenBookReadiness
record_stale true r = record r { quote_stale_count = r.quote_stale_count + 1 }
record_stale false r = r

-- A price that is shown without a size is an error.
unfoldable pub record_size :
    BookError → UpdateType → Option ℕ → Option ℕ → TokenBookReadiness → TokenBookReadiness
record_size error update_type none size r = r
record_size error update_type (some price) (some size) r = r
record_size error update_type (some price) none r = increment_readiness_error error update_type r

unfoldable pub record_error :
    Option BookError → UpdateType → TokenBookReadiness → TokenBookReadiness
record_error none update_type r = r
record_error (some error) update_type r =
    increment_readiness_error error update_type (record r { last_validation_error = some error })

-- The counts of a token after one message more.
unfoldable pub record_quote :
    UpdateType → Bool → ℕ → PolymarketQuote → TokenBookReadiness → TokenBookReadiness
record_quote update_type before_snapshot now q r0 =
    let r1 = record r0 { first_ws_message_ts_ns = first_of r0.first_ws_message_ts_ns now } in
    let r2 = record_update_type update_type before_snapshot now r1 in
    let r3 = record_complete q.book_complete now r2 in
    let r4 = record_stale q.book_stale r3 in
    let r5 = record_size best_bid_size_unknown update_type q.best_bid q.best_bid_size r4 in
    let r6 = record_size best_ask_size_unknown update_type q.best_ask q.best_ask_size r5 in
    record_error q.validation_error update_type r6

abbrev pub new_readiness : String → String → TokenBookReadiness
new_readiness token_id market_id = record {
  token_id = token_id;
  market_id = market_id;
  first_ws_message_ts_ns = none;
  first_book_snapshot_ts_ns = none;
  first_complete_quote_ts_ns = none;
  book_complete_true_count = 0;
  book_complete_false_count = 0;
  validation_error_count_by_reason = [];
  validation_error_count_by_update_type = record {
    books = 0;
    price_changes = 0;
    best_bid_asks = 0;
  };
  quote_stale_count = 0;
  price_change_before_snapshot_count = 0;
  best_bid_ask_before_snapshot_count = 0;
  snapshot_count = 0;
  delta_count = 0;
  reconnect_count = 0;
  last_validation_error = none;
}

-- `d.setdefault(token, _TokenBookReadiness(...))`
abbrev pub add_readiness :
    Option TokenBookReadiness
    → String
    → String
    → Texts TokenBookReadiness
    → Texts TokenBookReadiness
add_readiness none token market_id readiness = set readiness token (new_readiness token market_id)
add_readiness (some r) token market_id readiness = readiness

abbrev pub or_new : Option TokenBookReadiness → String → String → TokenBookReadiness
or_new none token_id market_id = new_readiness token_id market_id
or_new (some r) token_id market_id = r

unfoldable pub readiness_for : Texts TokenBookReadiness → String → String → TokenBookReadiness
readiness_for readiness token_id market_id = or_new (find readiness token_id) token_id market_id

unfoldable pub record_readiness :
    UpdateType
    → Bool
    → ℕ
    → TokenBook
    → PolymarketQuote
    → Texts TokenBookReadiness
    → Texts TokenBookReadiness
record_readiness update_type before_snapshot now b q readiness = set readiness b.token_id (
    record_quote update_type before_snapshot now q
      (readiness_for readiness b.token_id b.metadata.market_id))

unfoldable pub record_reconnect : Texts TokenBookReadiness → Texts TokenBookReadiness
record_reconnect [] = []
record_reconnect ((token, r) ∷ l) =
    (token, record r { reconnect_count = r.reconnect_count + 1 }) ∷ record_reconnect l

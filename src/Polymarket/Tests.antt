-- ===== src/Polymarket/Tests.antt =====
-- The local order book on small inputs: a token of one market, a snapshot of it, and a change.
use somethingtrade.Prelude.{ℕ, ◌≤◌, ◌≡◌, ◌↔◌, refl, false, true, none, some, List, [], ◌∷◌, All}
use somethingtrade.Prelude.Int.{pos}
use somethingtrade.Prelude.Texts.{Texts, member}
use somethingtrade.Polymarket.Types.{
  strict, TokenBookMetadata, Settings, PolymarketLocalOrderBook, PolymarketQuote, Received,
  BookMessage, PriceChange, BestBidAsk,
}
use somethingtrade.Polymarket.Levels.{best_bid, best_ask, levels_to_dict, set_level}
use somethingtrade.Polymarket.Reported.{
  price_of, size_of, mismatched, apply_beside, apply_one_reported_best, apply_both,
  apply_reported_at, apply_reported_best, clear_resolved_overrides, sample_validation_error,
}
use somethingtrade.Polymarket.Quoting.{touch, quote, is_incomplete, structurally_complete}
use somethingtrade.Polymarket.LocalBook.{
  init, book_of, finish, replace_levels, apply_book, change_level, change_book, apply_price_change,
  reset_errors, apply_best_bid_ask, mark_market_invalid,
}
use somethingtrade.Polymarket.Complete.{Uncrossed}
use somethingtrade.Polymarket.Run.{Call, snapshot, change, reported, call, run}
use somethingtrade.Polymarket.Counting.{token_counts}
use somethingtrade.Polymarket.Tally.{tally, run-counts, run-not_stale}
use somethingtrade.Polymarket.Safety.{ShowsSound, is_offered, call_complete, run-invalidated}
use somethingtrade.Polymarket.Samples.{written}
use somethingtrade.Polymarket.Limit.{run-written}
use somethingtrade.Polymarket.Recovery.{apply_book-complete_iff}

abbrev settings : Settings
settings = record {
  stale_after_ns = 1000;
  best_validation_mode = strict;
  best_validation_tolerance_ticks = 1;
  mismatch_sample_path = some "samples.jsonl";
  mismatch_sample_per_token_per_min = 2;
  default_tick_size = 10;
}

abbrev metadata : TokenBookMetadata
metadata = record {
  condition_id = none;
  market_id = "m";
  side_label = "UP";
  market_slug = none;
  base_asset = none;
  duration_minutes = none;
  token_outcome = none;
  tick_size = 10;
}

abbrev tokens : Texts TokenBookMetadata
tokens = ("t", metadata) ∷ []

abbrev at_time : ℕ → Received
at_time n = record {
  received_ts = n;
  parse_done_ts = n;
  recv_monotonic_ns = n;
  parse_done_monotonic_ns = n;
  event_ts = none;
  sequence = none;
}

abbrev levels : BookMessage
levels = record {
  asset_id = "t";
  market = "m";
  bids = some (some (400, pos 5) ∷ none ∷ some (390, pos 7) ∷ []);
  asks = some (some (420, pos 3) ∷ []);
}

abbrev higher_bid : PriceChange
higher_bid = record {
  asset_id = "t";
  market = "m";
  side = "BUY";
  price = 410;
  size = pos 2;
  best_bid = some 410;
  best_ask = some 420;
}

abbrev wrong_bid : BestBidAsk
wrong_bid = record { asset_id = "t"; market = "m"; best_bid = some 300; best_ask = some 420 }

abbrev begun : PolymarketLocalOrderBook
begun = (call (snapshot (at_time 1) levels) (init settings tokens)).0

abbrev changed : PolymarketQuote
changed = (apply_price_change (at_time 2) higher_bid begun).1

changed_complete : changed.book_complete ≡ true
unfolding apply_price_change finish quote is_incomplete structurally_complete touch
    apply_reported_best apply_reported_at apply_both apply_one_reported_best apply_beside mismatched
    change_book change_level clear_resolved_overrides set_level book_of call apply_book init
    replace_levels levels_to_dict best_bid best_ask
changed_complete = refl

changed-call : (call (change (at_time 2) higher_bid) begun).1 ≡ some changed
unfolding call
changed-call = refl

call_complete_example :
    ShowsSound
      (change (at_time 2) higher_bid)
      (call (change (at_time 2) higher_bid) begun).0
      changed
call_complete_example =
    call_complete (change (at_time 2) higher_bid) begun changed changed-call changed_complete

abbrev calls : List Call
calls =
    snapshot (at_time 1) levels
    ∷ change (at_time 2) higher_bid
    ∷ reported (at_time 3) wrong_bid
    ∷ reported (at_time 4) wrong_bid
    ∷ reported (at_time 5) wrong_bid
    ∷ []

run-invalidated_example :
    All (λ q. is_offered "m" q ≡ false) (run calls (mark_market_invalid "m" begun)).1
run-invalidated_example = run-invalidated "m" calls begun

apply_book-complete_iff_example :
    let q = (apply_book (at_time 6) levels begun).1 in
    let bid = best_bid (levels_to_dict levels.bids) in
    let ask = best_ask (levels_to_dict levels.asks) in
    ((q.book_complete ≡ true)
      ↔ ((member begun.market_invalid q.market_id ≡ false) × Uncrossed bid ask))
    × ((q.best_bid ≡ price_of bid) × (q.best_bid_size ≡ size_of bid))
    × (q.best_ask ≡ price_of ask)
    × (q.best_ask_size ≡ size_of ask)
apply_book-complete_iff_example = apply_book-complete_iff (at_time 6) levels begun

run-written_example :
    written (run calls (init settings tokens)).0.mismatches.samples "t" 0
    ≤ settings.mismatch_sample_per_token_per_min
run-written_example = run-written settings tokens calls "t" 0

-- Of three mismatches two are sampled.
two_samples : written (run calls (init settings tokens)).0.mismatches.samples "t" 0 ≡ 2
unfolding apply_price_change finish quote is_incomplete structurally_complete touch
    apply_reported_best apply_reported_at apply_both apply_one_reported_best apply_beside mismatched
    change_book change_level clear_resolved_overrides set_level book_of call apply_book init
    replace_levels levels_to_dict best_bid best_ask run apply_best_bid_ask reset_errors
    sample_validation_error
two_samples = refl

run-counts_example :
    let (s', quotes) = run calls begun in
    token_counts s'.readiness "t" ≡ tally "t" quotes (token_counts begun.readiness "t")
run-counts_example = run-counts calls begun "t"

run-not_stale_example : All (λ q. q.book_stale ≡ false) (run calls begun).1
run-not_stale_example = run-not_stale calls begun

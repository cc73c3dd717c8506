-- ===== src/Polymarket/Reported.antt =====
-- The reported best prices beside those of the book: `_apply_reported_best`, `_apply_one_reported_best`,
-- `_within_best_tolerance`, `_sample_validation_error` and `_clear_resolved_overrides` of
-- bot/app/marketdata/polymarket_orderbook.py.
use somethingtrade.Prelude.{
  ℕ, ◌+◌, ◌-◌, ◌*◌, ◌/◌, Bool, true, false, ◌&&◌, String, str_eq, Option, none, some, List, [], ◌∷◌,
  ◌++◌, ltb, leb, ◌==◌, if◌then◌else◌,
}
use somethingtrade.Polymarket.Types.{
  BestValidationMode, strict, tolerant, diagnostic, UpdateType, book, price_change, best_bid_ask,
  BookError, reported_best_bid_mismatch, reported_best_ask_mismatch, best_bid_size_unknown,
  best_ask_size_unknown, missing_snapshot, price_change_before_snapshot,
  best_bid_ask_before_snapshot, market_invalidated, unsupported_price_change_side, TokenBook,
  ByUpdateType, Settings, Mismatches,
}
use somethingtrade.Polymarket.Levels.{best_bid, best_ask}

pub data Side : Type 0 where
  bid ask : Side

abbrev pub price_of : Option (ℕ × ℕ) → Option ℕ
price_of none = none
price_of (some e) = some e.0

abbrev pub size_of : Option (ℕ × ℕ) → Option ℕ
size_of none = none
size_of (some e) = some e.1

abbrev pub local_best : Side → TokenBook → Option ℕ
local_best bid b = price_of (best_bid b.bids)
local_best ask b = price_of (best_ask b.asks)

abbrev pub set_override : Side → Option ℕ → TokenBook → TokenBook
set_override bid v b = record b { best_bid_override = v }
set_override ask v b = record b { best_ask_override = v }

abbrev pub size_unknown : Side → BookError
size_unknown bid = best_bid_size_unknown
size_unknown ask = best_ask_size_unknown

abbrev pub mismatch : Side → BookError
mismatch bid = reported_best_bid_mismatch
mismatch ask = reported_best_ask_mismatch

-- `abs(a - b)`
abbrev pub distance : ℕ → ℕ → ℕ
distance a b = (a - b) + (b - a)

abbrev pub within_best_tolerance : Settings → ℕ → ℕ → ℕ → Bool
within_best_tolerance c local reported tick_size =
    leb (distance local reported) (c.best_validation_tolerance_ticks * tick_size)

-- `d[update_type] = d.get(update_type, 0) + 1`
abbrev pub count_type : UpdateType → ByUpdateType → ByUpdateType
count_type book t = record t { books = t.books + 1 }
count_type price_change t = record t { price_changes = t.price_changes + 1 }
count_type best_bid_ask t = record t { best_bid_asks = t.best_bid_asks + 1 }

abbrev pub note_mismatch : UpdateType → ℕ → ℕ → Mismatches → Mismatches
note_mismatch update_type diff tick_size m = record m {
  tick_diffs = if tick_size == 0 then m.tick_diffs else m.tick_diffs ++ (diff, tick_size) ∷ [];
  by_update_type = count_type update_type m.by_update_type;
}

-- The book is not complete any more, and shows the reported price.
abbrev pub distrust : Side → ℕ → BookError → TokenBook → TokenBook
distrust side reported error b = set_override side (some reported) (record b {
  validation_error = some error;
  reported_best_validation_ok = false;
  incomplete = true;
})

-- What a mismatch makes of the book, by the mode and whether it is within the tolerance.
unfoldable pub mismatched : BestValidationMode → Bool → Side → ℕ → TokenBook → TokenBook
mismatched diagnostic within side reported b = record b {
  validation_error = some (mismatch side);
  reported_best_validation_ok = false;
}
mismatched tolerant true side reported b = record b {
  validation_error = some (mismatch side);
  reported_best_validation_ok = true;
}
mismatched tolerant false side reported b = distrust side reported (mismatch side) b
mismatched strict within side reported b = distrust side reported (mismatch side) b

-- `_apply_one_reported_best` on a book with a snapshot, beside the book's own best price.
unfoldable pub apply_beside :
    Settings → UpdateType → Side → ℕ → Option ℕ → TokenBook → Mismatches → TokenBook × Mismatches
apply_beside c update_type side reported none b m =
    (distrust side reported (size_unknown side) b, m)
apply_beside c update_type side reported (some local) b m =
    if local == reported then (set_override side none b, m) else (
      mismatched c.best_validation_mode
          (within_best_tolerance c local reported b.metadata.tick_size) side reported b,
      note_mismatch update_type (distance local reported) b.metadata.tick_size m,
    )

unfoldable pub apply_one_reported_best :
    Settings → UpdateType → Side → Option ℕ → TokenBook → Mismatches → TokenBook × Mismatches
apply_one_reported_best c update_type side none b m = (b, m)
apply_one_reported_best c update_type side (some reported) b m =
    apply_beside c update_type side reported (local_best side b) b m

-- `validation_error in SAMPLE_VALIDATION_ERRORS`
abbrev pub is_sampled : Option BookError → Bool
is_sampled none = false
is_sampled (some price_change_before_snapshot) = true
is_sampled (some best_bid_ask_before_snapshot) = true
is_sampled (some market_invalidated) = false
is_sampled (some (unsupported_price_change_side side)) = false
is_sampled (some error) = true

abbrev pub minute_of : ℕ → ℕ
minute_of received_ts = received_ts / 60_000_000_000

-- The count for a token and a minute, and the count with one more.
abbrev pub samples_of : List (String × ℕ × ℕ) → String → ℕ → ℕ
samples_of [] token minute = 0
samples_of ((t, u, n) ∷ counts) token minute =
    if str_eq t token && (u == minute) then n else samples_of counts token minute

abbrev pub count_sample : List (String × ℕ × ℕ) → String → ℕ → List (String × ℕ × ℕ)
count_sample [] token minute = (token, minute, 1) ∷ []
count_sample ((t, u, n) ∷ counts) token minute =
    if str_eq t token && (u == minute)
    then (t, u, n + 1) ∷ counts
    else (t, u, n) ∷ count_sample counts token minute

-- The sample is written, with its count.
abbrev pub write_sample : UpdateType → ℕ → TokenBook → Mismatches → Mismatches
write_sample update_type minute b m = record m {
  sample_counts = count_sample m.sample_counts b.token_id minute;
  samples =
      m.samples
      ++ record {
        token_id = b.token_id;
        minute = minute;
        update_type = update_type;
        error_type = b.validation_error;
      }
        ∷ [];
}

abbrev pub sample_below : ℕ → UpdateType → ℕ → TokenBook → Mismatches → Mismatches
sample_below limit update_type minute b m =
    if ltb (samples_of m.sample_counts b.token_id minute) limit
    then write_sample update_type minute b m
    else m

abbrev pub sample_at : Option String → ℕ → UpdateType → ℕ → TokenBook → Mismatches → Mismatches
sample_at none limit update_type minute b m = m
sample_at (some path) limit update_type minute b m = sample_below limit update_type minute b m

unfoldable pub sample_validation_error :
    Settings → UpdateType → ℕ → TokenBook → Mismatches → Mismatches
sample_validation_error c update_type received_ts b m =
    sample_at c.mismatch_sample_path c.mismatch_sample_per_token_per_min update_type
      (minute_of received_ts) b m

-- Before a snapshot a `best_bid_ask` message sets what the book shows.
abbrev pub show_reported : UpdateType → Option ℕ → Option ℕ → TokenBook → TokenBook
show_reported best_bid_ask reported_bid reported_ask b = record b {
  best_bid_override = reported_bid;
  best_ask_override = reported_ask;
}
show_reported update_type reported_bid reported_ask b = b

abbrev pub without_snapshot : UpdateType → Option ℕ → Option ℕ → TokenBook → TokenBook
without_snapshot update_type reported_bid reported_ask b =
    show_reported update_type reported_bid reported_ask (record b {
      validation_error = some missing_snapshot;
      reported_best_validation_ok = false;
      incomplete = true;
    })

-- Both reported prices, on a book with a snapshot.
unfoldable pub apply_both :
    Settings → UpdateType → Option ℕ → Option ℕ → TokenBook → Mismatches → TokenBook × Mismatches
apply_both c update_type reported_bid reported_ask b m =
    let (b1, m1) = apply_one_reported_best c update_type bid reported_bid b m in
    apply_one_reported_best c update_type ask reported_ask b1 m1

-- `_apply_reported_best`, beside whether the book has a snapshot.
unfoldable pub apply_reported_at :
    Bool
    → Settings
    → UpdateType
    → ℕ
    → Option ℕ
    → Option ℕ
    → TokenBook
    → Mismatches
    → TokenBook × Mismatches
apply_reported_at false c update_type received_ts reported_bid reported_ask b m =
    let b' = without_snapshot update_type reported_bid reported_ask b in
    (b', sample_validation_error c update_type received_ts b' m)
apply_reported_at true c update_type received_ts reported_bid reported_ask b m =
    let (b', m') = apply_both c update_type reported_bid reported_ask b m in
    (
      b',
      if is_sampled b'.validation_error
          then sample_validation_error c update_type received_ts b' m'
          else m',
    )

unfoldable pub apply_reported_best :
    Settings
    → UpdateType
    → ℕ
    → Option ℕ
    → Option ℕ
    → TokenBook
    → Mismatches
    → TokenBook × Mismatches
apply_reported_best c update_type received_ts reported_bid reported_ask b m =
    apply_reported_at b.has_snapshot c update_type received_ts reported_bid reported_ask b m

abbrev pub is_price : Option ℕ → Option ℕ → Bool
is_price none best = false
is_price (some p) none = false
is_price (some p) (some q) = p == q

unfoldable pub clear_resolved_overrides : TokenBook → TokenBook
clear_resolved_overrides b = record b {
  best_bid_override =
      if is_price b.best_bid_override (local_best bid b) then none else b.best_bid_override;
  best_ask_override =
      if is_price b.best_ask_override (local_best ask b) then none else b.best_ask_override;
}

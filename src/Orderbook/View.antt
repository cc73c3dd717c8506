-- ===== src/Orderbook/View.antt =====
-- `top_n`, `_copy_top_bid_levels`, `_copy_top_ask_levels` and `copy_snapshot` of
-- bot/app/marketdata/orderbook_state.py. `none` is the `KeyError` of a price that has no size.
use somethingtrade.Prelude.{
  ℕ, ◌+◌, String, Option, none, some, List, [], ◌∷◌, ◌==◌, if◌then◌else◌, ◌>>=◌, or_number, take,
  length, reverse, or_text,
}
use somethingtrade.Prelude.Int.{ℤ, sub_ℕ}
use somethingtrade.Prelude.Dict.{Dict, get}
use somethingtrade.Orderbook.Types.{OrderbookState, OrderbookSnapshot, SideBook, Clocks}
use somethingtrade.Orderbook.State.{ensure_price_indexes}

-- The body of both loops, over the prices that the loop visits.
unfoldable pub copy_levels : Dict ℕ → List ℕ → Option (List (ℕ × ℕ))
copy_levels book [] = some []
copy_levels book (price ∷ prices) = do
  size ← get book price
  levels ← copy_levels book prices
  some (if size == 0 then levels else (price, size) ∷ levels)

-- The indices go from the last down, `n` of them at most.
unfoldable pub copy_top_bid_levels : ℕ → SideBook → Option (List (ℕ × ℕ))
copy_top_bid_levels n side = copy_levels side.levels (take n (reverse side.prices_asc))

unfoldable pub copy_top_ask_levels : ℕ → SideBook → Option (List (ℕ × ℕ))
copy_top_ask_levels n side = copy_levels side.levels (take n side.prices_asc)

pub data BookSide : Type 0 where
  bid_side ask_side : BookSide

unfoldable pub top_n : BookSide → ℕ → OrderbookState → OrderbookState × Option (List (ℕ × ℕ))
top_n bid_side n s = let s' = ensure_price_indexes s in (s', copy_top_bid_levels n s'.bids)
top_n ask_side n s = let s' = ensure_price_indexes s in (s', copy_top_ask_levels n s'.asks)

abbrev pub first_price : List (ℕ × ℕ) → Option ℕ
first_price [] = none
first_price ((price, size) ∷ levels) = some price

abbrev pub spread_of : Option ℕ → Option ℕ → Option ℤ
spread_of (some bid) (some ask) = some (sub_ℕ ask bid)
spread_of (some bid) none = none
spread_of none ask = none

-- In half quanta: the half of `bid + ask` quanta.
abbrev pub mid_of : Option ℕ → Option ℕ → Option ℕ
mid_of (some bid) (some ask) = some (bid + ask)
mid_of (some bid) none = none
mid_of none ask = none

unfoldable pub snapshot_of :
    Clocks
    → Option ℕ
    → Option String
    → OrderbookState
    → List (ℕ × ℕ)
    → List (ℕ × ℕ)
    → OrderbookSnapshot
snapshot_of clocks recv wall s bids_top_n asks_top_n =
    let bid = first_price bids_top_n in
    let ask = first_price asks_top_n in
    record {
      symbol = s.symbol;
      snapshot_version = s.state_version;
      state_version = s.state_version;
      generation_id = s.generation;
      bids_top_n = bids_top_n;
      asks_top_n = asks_top_n;
      bid_count = length s.bids.levels;
      ask_count = length s.asks.levels;
      best_bid = bid;
      best_ask = ask;
      spread = spread_of bid ask;
      mid = mid_of bid ask;
      last_update_id = s.last_update_id;
      last_book_update_monotonic_ns = s.last_book_update_monotonic_ns;
      local_recv_monotonic_ns = or_number recv clocks.monotonic_now_ns;
      local_recv_wall_ts = or_text wall (or_text s.last_local_recv_wall_ts clocks.utc_iso_now);
    }

unfoldable pub copy_snapshot :
    Clocks
    → ℕ
    → Option ℕ
    → Option String
    → OrderbookState
    → OrderbookState × Option OrderbookSnapshot
copy_snapshot clocks n recv wall s0 =
    let s = ensure_price_indexes s0 in
    (
      s,
      (do
        bids_top_n ← copy_top_bid_levels n s.bids
        asks_top_n ← copy_top_ask_levels n s.asks
        some (snapshot_of clocks recv wall s bids_top_n asks_top_n)),
    )

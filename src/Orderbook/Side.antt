-- ===== src/Orderbook/Side.antt =====
-- `_apply_level`, `_rebuild_price_indexes` and `_ensure_price_indexes` of
-- bot/app/marketdata/orderbook_state.py, on one side of the book.
use somethingtrade.Prelude.{ℕ, Bool, List, [], ◌∷◌, ◌==◌, if◌then◌else◌, length}
use somethingtrade.Prelude.Sorted.{insort, sorted, discard}
use somethingtrade.Prelude.Dict.{Dict, put, remove, keys, has}
use somethingtrade.Orderbook.Types.{ParsedLevel, SideBook}

unfoldable pub apply_level : SideBook → ParsedLevel → SideBook
apply_level side level =
    let exists = has side.levels level.price in
    if level.size == 0
    then (if exists
        then record {
          levels = remove side.levels level.price;
          prices_asc = discard level.price side.prices_asc;
        }
        else side)
    else record {
      levels = put side.levels level.price level.size;
      prices_asc = if exists then side.prices_asc else insort level.price side.prices_asc;
    }

-- `for level in parsed: _apply_level(...)`
unfoldable pub apply_levels : SideBook → List ParsedLevel → SideBook
apply_levels side [] = side
apply_levels side (level ∷ rest) = apply_levels (apply_level side level) rest

unfoldable pub rebuild_prices : SideBook → SideBook
rebuild_prices side = record side { prices_asc = sorted (keys side.levels) }

-- `{level.price: level.size for level in parsed}`
unfoldable pub levels_of : Dict ℕ → List ParsedLevel → Dict ℕ
levels_of d [] = d
levels_of d (level ∷ rest) = levels_of (put d level.price level.size) rest

unfoldable pub is_current : SideBook → Bool
is_current side = length side.prices_asc == length side.levels

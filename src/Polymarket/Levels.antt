-- ===== src/Polymarket/Levels.antt =====
-- The sides of a token's book: `_levels_to_dict`, `_set_level`, `_best_bid` and `_best_ask`, and the
-- structural checks on the best levels, of bot/app/marketdata/polymarket_orderbook.py.
use somethingtrade.Prelude.{
  ℕ, zero, suc, Bool, true, false, Option, none, some, List, [], ◌∷◌, ltb, leb, if◌then◌else◌,
}
use somethingtrade.Prelude.Int.{ℤ, pos, negsuc}
use somethingtrade.Prelude.Dict.{Dict, put, remove}
use somethingtrade.Polymarket.Types.{
  BookError, empty_book, crossed_book, book_structurally_incomplete,
}

unfoldable pub set_level : Dict ℕ → ℕ → ℤ → Dict ℕ
set_level levels price (pos zero) = remove levels price
set_level levels price (pos (suc n)) = put levels price (suc n)
set_level levels price (negsuc n) = remove levels price

-- One row of a snapshot.
abbrev pub take_row : Dict ℕ → Option (ℕ × ℤ) → Dict ℕ
take_row levels none = levels
take_row levels (some (price, pos zero)) = levels
take_row levels (some (price, pos (suc n))) = put levels price (suc n)
take_row levels (some (price, negsuc n)) = levels

abbrev pub take_rows : Dict ℕ → List (Option (ℕ × ℤ)) → Dict ℕ
take_rows levels [] = levels
take_rows levels (row ∷ rows) = take_rows (take_row levels row) rows

unfoldable pub levels_to_dict : Option (List (Option (ℕ × ℤ))) → Dict ℕ
levels_to_dict none = []
levels_to_dict (some rows) = take_rows [] rows

-- The entry with the higher price, the first of two that are equal.
abbrev pub higher : ℕ × ℕ → Option (ℕ × ℕ) → ℕ × ℕ
higher e none = e
higher e (some f) = if ltb e.0 f.0 then f else e

abbrev pub lower : ℕ × ℕ → Option (ℕ × ℕ) → ℕ × ℕ
lower e none = e
lower e (some f) = if ltb f.0 e.0 then f else e

unfoldable pub best_bid : Dict ℕ → Option (ℕ × ℕ)
best_bid [] = none
best_bid (e ∷ levels) = some (higher e (best_bid levels))

unfoldable pub best_ask : Dict ℕ → Option (ℕ × ℕ)
best_ask [] = none
best_ask (e ∷ levels) = some (lower e (best_ask levels))

-- `_structural_validation_error`: a best price has a size with it.
unfoldable pub structural_validation_error :
    Bool → Option (ℕ × ℕ) → Option (ℕ × ℕ) → Option BookError
structural_validation_error false bid ask = none
structural_validation_error true none none = some empty_book
structural_validation_error true none (some ask) = some book_structurally_incomplete
structural_validation_error true (some bid) none = some book_structurally_incomplete
structural_validation_error true (some bid) (some ask) =
    if leb ask.0 bid.0 then some crossed_book else none

-- Both best levels are there, and the bid is below the ask.
abbrev pub is_uncrossed : Option (ℕ × ℕ) → Option (ℕ × ℕ) → Bool
is_uncrossed none ask = false
is_uncrossed (some bid) none = false
is_uncrossed (some bid) (some ask) = ltb bid.0 ask.0

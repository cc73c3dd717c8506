-- ===== src/Orderbook/Levels.antt =====
-- `_parse_levels` of bot/app/marketdata/orderbook_state.py, with its helpers.
use somethingtrade.Prelude.{
  ℕ, zero, suc, Bool, not, ◌&&◌, Option, none, some, List, [], ◌∷◌, ◌++◌, ◌==◌, if◌then◌else◌,
}
use somethingtrade.Prelude.Int.{pos, negsuc}
use somethingtrade.Orderbook.Types.{
  Decimal, finite, Value, number, unreadable, Row, object, mapping, sequence, other, ParsedLevel,
  Reason, invalid_price_level, invalid_size_level, negative_price, negative_size, non_finite_price,
  non_finite_size,
}

unfoldable pub decimal_or_none : Value → Option Decimal
decimal_or_none (number d) = some d
decimal_or_none unreadable = none

-- What is not rejected is positive, and so a natural number.
abbrev check_price : Decimal → Option ℕ × List Reason
check_price (finite (pos zero)) = (none, negative_price ∷ invalid_price_level ∷ [])
check_price (finite (pos (suc n))) = (some (suc n), [])
check_price (finite (negsuc n)) = (none, negative_price ∷ invalid_price_level ∷ [])
check_price _ = (none, non_finite_price ∷ invalid_price_level ∷ [])

abbrev checked_price : Option Decimal → Option ℕ × List Reason
checked_price none = (none, invalid_price_level ∷ [])
checked_price (some d) = check_price d

unfoldable pub parse_price : Value → Option ℕ × List Reason
unfolding decimal_or_none
parse_price value = checked_price (decimal_or_none value)

abbrev check_size : Bool → Decimal → Option ℕ × List Reason
check_size allow_zero (finite (pos n)) =
    if n == 0 && not allow_zero
    then (none, negative_size ∷ invalid_size_level ∷ [])
    else (some n, [])
check_size allow_zero (finite (negsuc n)) = (none, negative_size ∷ invalid_size_level ∷ [])
check_size allow_zero _ = (none, non_finite_size ∷ invalid_size_level ∷ [])

abbrev checked_size : Bool → Option Decimal → Option ℕ × List Reason
checked_size allow_zero none = (none, invalid_size_level ∷ [])
checked_size allow_zero (some d) = check_size allow_zero d

unfoldable pub parse_size : Bool → Value → Option ℕ × List Reason
unfolding decimal_or_none
parse_size allow_zero value = checked_size allow_zero (decimal_or_none value)

-- `row.get(key)`: the text of a missing value is no decimal.
abbrev get_value : Option Value → Value
get_value none = unreadable
get_value (some v) = v

-- The raw price and size of a row, for a row that has them.
unfoldable pub raw_level : Row → Option (Value × Value)
raw_level (object price size) = some (price, size)
raw_level (mapping price size) = some (get_value price, get_value size)
raw_level (sequence (price ∷ size ∷ rest)) = some (price, size)
raw_level (sequence _) = none
raw_level other = none

-- One round of the loop: the level, if it is good, and the errors.
abbrev pub both : Option ℕ → Option ℕ → List ParsedLevel
both none size = []
both (some price) none = []
both (some price) (some size) = record { price = price; size = size } ∷ []

abbrev pub parse_raw : Bool → Option (Value × Value) → List ParsedLevel × List Reason
parse_raw allow_zero none = ([], invalid_price_level ∷ invalid_size_level ∷ [])
parse_raw allow_zero (some (price_raw, size_raw)) =
    let (price, price_errors) = parse_price price_raw in
    let (size, size_errors) = parse_size allow_zero size_raw in
    (both price size, price_errors ++ size_errors)

unfoldable pub parse_row : Bool → Row → List ParsedLevel × List Reason
unfolding parse_price parse_size raw_level
parse_row allow_zero row = parse_raw allow_zero (raw_level row)

unfoldable pub parse_levels : Bool → List Row → List ParsedLevel × List Reason
parse_levels allow_zero [] = ([], [])
parse_levels allow_zero (row ∷ rows) =
    let (parsed, errors) = parse_row allow_zero row in
    let (more, more_errors) = parse_levels allow_zero rows in
    (parsed ++ more, errors ++ more_errors)

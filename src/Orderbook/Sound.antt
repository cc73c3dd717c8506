-- ===== src/Orderbook/Sound.antt =====
-- What a book may hold: positive prices and sizes, and for each price the last size applied to it.
use somethingtrade.Prelude.{
  ℕ, zero, suc, ◌<◌, ◌≡◌, refl, inl, inr, Bool, false, Option, none, some, List, [], ◌∷◌, ◌++◌,
  arith, ◌==◌, if◌then◌else◌, Bool-cases, All, All-append,
}
use somethingtrade.Prelude.Int.{pos, negsuc}
use somethingtrade.Prelude.Dict.{Dict, get, put, remove, has, get-put, get-remove}
use somethingtrade.Orderbook.Types.{
  ParsedLevel, SideBook, Value, number, unreadable, finite, infinite, nan, Row,
}
use somethingtrade.Orderbook.Levels.{
  parse_price, parse_size, parse_row, parse_levels, raw_level, both, parse_raw,
}
use somethingtrade.Orderbook.Side.{apply_level, apply_levels, levels_of}

abbrev pub IsPositive : Dict ℕ → Type 0
IsPositive = All (λ e. (0 < e.0) × (0 < e.1))

put-IsPositive : (d : Dict ℕ) (k v : ℕ) → 0 < k → 0 < v → IsPositive d → IsPositive (put d k v)
put-IsPositive [] k v hk hv h = ((hk, hv), tt)
put-IsPositive ((j, w) ∷ d) k v hk hv h = elim (Bool-cases (j == k)) [
  | inl here ↦ rw here ((h.0.0, hv), h.1)
  | inr other ↦ rw other (h.0, put-IsPositive d k v hk hv h.1)
]

remove-IsPositive : (d : Dict ℕ) (k : ℕ) → IsPositive d → IsPositive (remove d k)
remove-IsPositive [] k h = tt
remove-IsPositive ((j, w) ∷ d) k h = elim (Bool-cases (j == k)) [
  | inl here ↦ rw here (remove-IsPositive d k h.1)
  | inr other ↦ rw other (h.0, remove-IsPositive d k h.1)
]

abbrev pub ArePriced : List ParsedLevel → Type 0
ArePriced = All (λ l. 0 < l.price)

abbrev pub AreSized : List ParsedLevel → Type 0
AreSized = All (λ l. 0 < l.size)

apply_level-IsPositive :
    (side : SideBook) (level : ParsedLevel)
    → 0 < level.price
    → IsPositive side.levels
    → IsPositive (apply_level side level).levels
unfolding apply_level
apply_level-IsPositive side level p h = elim (Bool-cases (level.size == 0)) [
  | inl gone ↦ elim (Bool-cases (has side.levels level.price)) [
    | inl old ↦ rw (gone, old) (remove-IsPositive side.levels level.price h)
    | inr new ↦ rw (gone, new) h
  ]
  | inr stays ↦ rw stays (put-IsPositive side.levels level.price level.size p (ground arith) h)
]

pub apply_levels-IsPositive :
    (side : SideBook) (levels : List ParsedLevel)
    → ArePriced levels
    → IsPositive side.levels
    → IsPositive (apply_levels side levels).levels
unfolding apply_levels
apply_levels-IsPositive side [] p h = h
apply_levels-IsPositive side (level ∷ rest) p h =
    apply_levels-IsPositive (apply_level side level) rest p.1
      (apply_level-IsPositive side level p.0 h)

pub levels_of-IsPositive :
    (d : Dict ℕ) (levels : List ParsedLevel)
    → ArePriced levels
    → AreSized levels
    → IsPositive d
    → IsPositive (levels_of d levels)
unfolding levels_of
levels_of-IsPositive d [] p q h = h
levels_of-IsPositive d (level ∷ rest) p q h =
    levels_of-IsPositive (put d level.price level.size) rest p.1 q.1
      (put-IsPositive d level.price level.size p.0 q.0 h)

parse_price_pos : (v : Value) (n : ℕ) → (parse_price v).0 ≡ some n → 0 < n
unfolding parse_price
parse_price_pos (number (finite (pos zero))) n h = cc
parse_price_pos (number (finite (pos (suc k)))) n h = ground arith
parse_price_pos (number (finite (negsuc k))) n h = cc
parse_price_pos (number infinite) n h = cc
parse_price_pos (number nan) n h = cc
parse_price_pos unreadable n h = cc

parse_size_pos : (v : Value) (n : ℕ) → (parse_size false v).0 ≡ some n → 0 < n
unfolding parse_size
parse_size_pos (number (finite (pos k))) n h = ground arith
parse_size_pos (number (finite (negsuc k))) n h = cc
parse_size_pos (number infinite) n h = cc
parse_size_pos (number nan) n h = cc
parse_size_pos unreadable n h = cc

both-ArePriced : (p q : Option ℕ) → ((n : ℕ) → p ≡ some n → 0 < n) → ArePriced (both p q)
both-ArePriced none q h = tt
both-ArePriced (some p) none h = tt
both-ArePriced (some p) (some q) h = (h p refl, tt)

both-AreSized : (p q : Option ℕ) → ((n : ℕ) → q ≡ some n → 0 < n) → AreSized (both p q)
both-AreSized none q h = tt
both-AreSized (some p) none h = tt
both-AreSized (some p) (some q) h = (h q refl, tt)

parse_raw-ArePriced : (z : Bool) (o : Option (Value × Value)) → ArePriced (parse_raw z o).0
parse_raw-ArePriced z none = tt
parse_raw-ArePriced z (some (p, q)) =
    both-ArePriced (parse_price p).0 (parse_size z q).0 (parse_price_pos p)

parse_raw-AreSized : (o : Option (Value × Value)) → AreSized (parse_raw false o).0
parse_raw-AreSized none = tt
parse_raw-AreSized (some (p, q)) =
    both-AreSized (parse_price p).0 (parse_size false q).0 (parse_size_pos q)

pub parse_levels-ArePriced : (z : Bool) (rows : List Row) → ArePriced (parse_levels z rows).0
unfolding parse_levels parse_row
parse_levels-ArePriced z [] = tt
parse_levels-ArePriced z (row ∷ rows) =
    All-append (λ (l : ParsedLevel). 0 < l.price) (parse_row z row).0 (parse_levels z rows).0
      (parse_raw-ArePriced z (raw_level row)) (parse_levels-ArePriced z rows)

pub parse_levels-AreSized : (rows : List Row) → AreSized (parse_levels false rows).0
unfolding parse_levels parse_row
parse_levels-AreSized [] = tt
parse_levels-AreSized (row ∷ rows) =
    All-append (λ (l : ParsedLevel). 0 < l.size) (parse_row false row).0 (parse_levels false rows).0
      (parse_raw-AreSized (raw_level row)) (parse_levels-AreSized rows)

-- The size in the last of the levels with the given price.
pub last_size : List ParsedLevel → ℕ → Option ℕ
last_size [] price = none
last_size (level ∷ rest) price = elim (last_size rest price) [
  | none ↦ if level.price == price then some level.size else none
  | some size ↦ some size
]

-- A size of zero deletes, another one replaces, and no mention keeps.
abbrev pub written : Option ℕ → Option ℕ → Option ℕ
written none old = old
written (some zero) old = none
written (some (suc n)) old = some (suc n)

absent : (d : Dict ℕ) (k : ℕ) → has d k ≡ false → get d k ≡ none
absent [] k h = refl
absent ((j, w) ∷ d) k h = ground (arith, absent d k)

get-apply_level :
    (side : SideBook) (level : ParsedLevel) (price : ℕ)
    → get (apply_level side level).levels price ≡ (
        if level.price == price
        then written (some level.size) (get side.levels price)
        else get side.levels price)
unfolding apply_level
get-apply_level side level price = ground (
  arith,
  get-put side.levels level.price price level.size,
  get-remove side.levels level.price price,
  absent side.levels price,
)

-- After a list of levels, the book has at each price what the last level at that price says,
-- and what it had before where no level has that price.
pub get-apply_levels :
    (side : SideBook) (levels : List ParsedLevel) (price : ℕ)
    → get (apply_levels side levels).levels price
      ≡ written (last_size levels price) (get side.levels price)
unfolding apply_levels last_size
get-apply_levels side [] price = refl
get-apply_levels side (level ∷ rest) price =
    ground (
      arith,
      get-apply_levels (apply_level side level) rest price,
      get-apply_level side level price,
    )

abbrev or_before : Option ℕ → Option ℕ → Option ℕ
or_before none old = old
or_before (some n) old = some n

last_size-append_or :
    (xs ys : List ParsedLevel) (price : ℕ)
    → last_size (xs ++ ys) price ≡ or_before (last_size ys price) (last_size xs price)
unfolding last_size
last_size-append_or [] ys price = ground arith
last_size-append_or (x ∷ xs) ys price = ground (arith, last_size-append_or xs ys price)

-- Two lists of levels in turn write what their concatenation writes.
pub written-append :
    (xs ys : List ParsedLevel) (price : ℕ) (old : Option ℕ)
    → written (last_size (xs ++ ys) price) old
      ≡ written (last_size ys price) (written (last_size xs price) old)
written-append xs ys price old = ground (arith, last_size-append_or xs ys price)

pub written-nil : (price : ℕ) (old : Option ℕ) → written (last_size [] price) old ≡ old
unfolding last_size
written-nil price old = refl

get-levels_of_or :
    (d : Dict ℕ) (levels : List ParsedLevel) (price : ℕ)
    → get (levels_of d levels) price ≡ or_before (last_size levels price) (get d price)
unfolding levels_of last_size
get-levels_of_or d [] price = refl
get-levels_of_or d (level ∷ rest) price = ground (
  arith,
  get-levels_of_or (put d level.price level.size) rest price,
  get-put d level.price price level.size,
)

-- The book of a snapshot has at each price the last size that the snapshot gives it.
pub get-levels_of :
    (levels : List ParsedLevel) (price : ℕ)
    → get (levels_of [] levels) price ≡ last_size levels price
get-levels_of levels price = ground (arith, get-levels_of_or [] levels price)

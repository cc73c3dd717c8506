-- ===== src/Orderbook/Parsing.antt =====
-- `_parse_levels` against a description of the rows that are well formed.
use somethingtrade.Prelude.{
  ℕ, zero, suc, ◌<◌, ◌≡◌, ◌↔◌, refl, ap, subst, Bool, true, false, Option, none, some, List, [],
  ◌∷◌, arith, append-nil_parts,
}
use somethingtrade.Prelude.Int.{pos, negsuc}
use somethingtrade.Orderbook.Types.{
  ParsedLevel, Value, number, unreadable, finite, infinite, nan, Row,
}
use somethingtrade.Orderbook.Levels.{
  parse_price, parse_size, parse_row, parse_levels, raw_level, parse_raw,
}

-- The row gives a positive price and a size, which is positive too unless zero is allowed.
abbrev pub Reads : Bool → Row → ParsedLevel → Type 0
Reads allow_zero row level =
    (raw_level row ≡ some (number (finite (pos level.price)), number (finite (pos level.size))))
    × (0 < level.price)
    × (allow_zero ≡ false → 0 < level.size)

abbrev pub AllRead : Bool → List Row → List ParsedLevel → Type 0
AllRead allow_zero [] [] = Unit
AllRead allow_zero [] (level ∷ levels) = ⊥
AllRead allow_zero (row ∷ rows) [] = ⊥
AllRead allow_zero (row ∷ rows) (level ∷ levels) =
    Reads allow_zero row level × AllRead allow_zero rows levels

parse_price-some :
    (v : Value)
    → (parse_price v).1 ≡ []
    → (n : ℕ) × (v ≡ number (finite (pos n))) × (0 < n) × ((parse_price v).0 ≡ some n)
unfolding parse_price
parse_price-some (number (finite (pos zero))) h = cc
parse_price-some (number (finite (pos (suc k)))) h = (suc k, refl, omega arith, refl)
parse_price-some (number (finite (negsuc k))) h = cc
parse_price-some (number infinite) h = cc
parse_price-some (number nan) h = cc
parse_price-some unreadable h = cc

parse_size-some :
    (z : Bool) (v : Value)
    → (parse_size z v).1 ≡ []
    → (n : ℕ) × (v ≡ number (finite (pos n))) × (z ≡ false → 0 < n) × ((parse_size z v).0 ≡ some n)
unfolding parse_size
parse_size-some z (number (finite (pos zero))) h = (zero, refl, λ e. ground arith, ground arith)
parse_size-some z (number (finite (pos (suc k)))) h = (suc k, refl, λ e. omega arith, ground arith)
parse_size-some z (number (finite (negsuc k))) h = cc
parse_size-some z (number infinite) h = cc
parse_size-some z (number nan) h = cc
parse_size-some z unreadable h = cc

OneRead : Bool → Option (Value × Value) → Type 0
OneRead z o =
    (level : ParsedLevel) × (o
      ≡ some (number (finite (pos level.price)), number (finite (pos level.size))))
    × (0 < level.price)
    × (z ≡ false → 0 < level.size)
    × (parse_raw z o ≡ (level ∷ [], []))

parse_raw-reads : (z : Bool) (o : Option (Value × Value)) → (parse_raw z o).1 ≡ [] → OneRead z o
unfolding OneRead
parse_raw-reads z none h = cc
parse_raw-reads z (some (p, q)) h =
    let (e, f) = append-nil_parts (parse_price p).1 (parse_size z q).1 h in
    let (n, pe, n_pos, pn) = parse_price-some p e in
    let (m, qe, m_pos, qm) = parse_size-some z q f in
    (record { price = n; size = m }, ground arith, n_pos, m_pos, ground arith)

parse_row-Reads :
    (z : Bool) (row : Row)
    → (parse_row z row).1 ≡ []
    → (level : ParsedLevel) × Reads z row level × (parse_row z row ≡ (level ∷ [], []))
unfolding parse_row OneRead
parse_row-Reads z row h =
    let (level, e, p, q, f) = parse_raw-reads z (raw_level row) h in (level, (e, p, q), f)

parse_raw_good :
    (z : Bool) (price size : ℕ)
    → 0 < price
    → (z ≡ false → 0 < size)
    → parse_raw z (some (number (finite (pos price)), number (finite (pos size))))
      ≡ (record { price = price; size = size } ∷ [], [])
unfolding parse_price parse_size
parse_raw_good z zero size p q = absurd (omega arith)
parse_raw_good true (suc n) zero p q = refl
parse_raw_good false (suc n) zero p q = absurd (let h : 0 < 0 = q refl in omega arith)
parse_raw_good z (suc n) (suc m) p q = ground arith

parse_row_of_Reads :
    (z : Bool) (row : Row) (level : ParsedLevel)
    → Reads z row level
    → parse_row z row ≡ (level ∷ [], [])
unfolding parse_row
parse_row_of_Reads z row level (e, p, q) = rw e (parse_raw_good z level.price level.size p q)

levels_read :
    (z : Bool) (rows : List Row)
    → (parse_levels z rows).1 ≡ []
    → AllRead z rows (parse_levels z rows).0
unfolding parse_levels
levels_read z [] h = tt
levels_read z (row ∷ rows) h =
    let (e, f) = append-nil_parts (parse_row z row).1 (parse_levels z rows).1 h in
    let (level, r, one) = parse_row-Reads z row e in rw one (r, levels_read z rows f)

read_levels :
    (z : Bool) (rows : List Row) (levels : List ParsedLevel)
    → AllRead z rows levels
    → parse_levels z rows ≡ (levels, [])
unfolding parse_levels
read_levels z [] [] h = refl
read_levels z [] (l ∷ ls) h = absurd h
read_levels z (row ∷ rows) [] h = absurd h
read_levels z (row ∷ rows) (l ∷ ls) h =
    rw (parse_row_of_Reads z row l h.0, read_levels z rows ls h.1)

-- A list of rows is parsed to the given levels with no error exactly when each row is an object,
-- a mapping or a sequence whose first two values are the price and the size of the level at its
-- place, the price positive and the size not negative, nor zero unless zero is allowed.
pub parse_levels_iff :
    (allow_zero : Bool) (rows : List Row) (levels : List ParsedLevel)
    → (parse_levels allow_zero rows ≡ (levels, [])) ↔ AllRead allow_zero rows levels
parse_levels_iff z rows levels = (
  λ e.
      let f : AllRead z rows (parse_levels z rows).0 = levels_read z rows (ap (λ t. t.1) e) in
      subst (AllRead z rows) (ap (λ t. t.0) e) f,
  read_levels z rows levels,
)

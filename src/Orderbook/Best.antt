-- ===== src/Orderbook/Best.antt =====
-- The best prices of a side that is indexed, and what `validate` finds in a sound book.
use somethingtrade.Prelude.{
  ℕ, ◌<◌, ◌≤◌, ◌≡◌, ◌↔◌, refl, sym, ◌∙◌, inl, inr, true, false, Option, none, some, List, [], ◌∷◌,
  arith, ◌==◌, Bool-cases, All, head?, get_last?,
}
use somethingtrade.Prelude.Sorted.{contains, IsAscending, sorted-IsAscending}
use somethingtrade.Prelude.Dict.{Dict, has, keys}
use somethingtrade.Orderbook.Types.{SideBook, OrderbookState}
use somethingtrade.Orderbook.Reasons.{sorted_set, sorted_set-nil_iff}
use somethingtrade.Orderbook.State.{
  ensure_price_indexes, best_bid, best_ask, validate, book_errors, active_level_errors, is_empty,
}
use somethingtrade.Orderbook.Index.{IsIndexed, IsIndexed-is_current, IsIndexed-contains}
use somethingtrade.Orderbook.Sound.{IsPositive}

head-le : (l : List ℕ) (b p : ℕ) → IsAscending l → head? l ≡ some b → contains l p ≡ true → b ≤ p
head-le [] b p a h c = cc
head-le (x ∷ l) b p a h c = elim (Bool-cases (x == p)) [
  | inl here ↦ ground arith
  | inr later ↦ let e : x ≡ b = ground arith in rw (← e) (All-le x l p a.0 (ground arith))
]
  where
    All-le : (x : ℕ) (l : List ℕ) (p : ℕ) → All (λ y. x ≤ y) l → contains l p ≡ true → x ≤ p
    All-le x [] p h c = cc
    All-le x (y ∷ l) p h c = ground (arith, All-le x l p h.1)

last-ge :
    (l : List ℕ) (b p : ℕ) → IsAscending l → get_last? l ≡ some b → contains l p ≡ true → p ≤ b
last-ge [] b p a h c = cc
last-ge (x ∷ []) b p a h c = ground arith
last-ge (x ∷ y ∷ l) b p a h c = ground (arith, last-ge (y ∷ l) b p a.1 h, last-ge (y ∷ l) b y a.1 h)

head-contains : (l : List ℕ) (b : ℕ) → head? l ≡ some b → contains l b ≡ true
head-contains [] b h = cc
head-contains (x ∷ l) b h = ground arith

last-contains : (l : List ℕ) (b : ℕ) → get_last? l ≡ some b → contains l b ≡ true
last-contains [] b h = cc
last-contains (x ∷ []) b h = ground arith
last-contains (x ∷ y ∷ l) b h = ground (arith, last-contains (y ∷ l) b h)

index-IsAscending : (side : SideBook) → IsIndexed side → IsAscending side.prices_asc
index-IsAscending side h = rw h.index (sorted-IsAscending (keys side.levels))

-- While both sides are indexed, no index is rebuilt.
pub ensure-eq :
    (s : OrderbookState) → IsIndexed s.bids → IsIndexed s.asks → ensure_price_indexes s ≡ s
unfolding ensure_price_indexes
ensure-eq s b a = rw (IsIndexed-is_current s.bids b, IsIndexed-is_current s.asks a)

-- On a book whose sides are indexed, the best bid is a bid price and no bid price is above it, and
-- the best ask is an ask price and no ask price is below it.
pub best_lem :
    (s : OrderbookState) (price other : ℕ)
    → IsIndexed s.bids
    → IsIndexed s.asks
    → ((best_bid s).1 ≡ some price
        → (has s.bids.levels price ≡ true) × (has s.bids.levels other ≡ true → other ≤ price))
      × ((best_ask s).1 ≡ some price
          → (has s.asks.levels price ≡ true) × (has s.asks.levels other ≡ true → price ≤ other))
unfolding best_bid best_ask
best_lem s price other b a = rw (ensure-eq s b a) (
  λ e. (
    sym (IsIndexed-contains s.bids price b) ∙ last-contains s.bids.prices_asc price e,
    λ m.
        last-ge s.bids.prices_asc price other (index-IsAscending s.bids b) e
          (IsIndexed-contains s.bids other b ∙ m),
  ),
  λ e. (
    sym (IsIndexed-contains s.asks price a) ∙ head-contains s.asks.prices_asc price e,
    λ m.
        head-le s.asks.prices_asc price other (index-IsAscending s.asks a) e
          (IsIndexed-contains s.asks other a ∙ m),
  ),
)

active_level_errors-nil : (d : Dict ℕ) → IsPositive d → active_level_errors d ≡ []
unfolding active_level_errors
active_level_errors-nil [] h = refl
active_level_errors-nil ((p, q) ∷ d) h = ground (arith, active_level_errors-nil d h.1)

-- A bid and an ask are there, and the bid is below the ask.
abbrev pub Uncrossed : Option ℕ → Option ℕ → Type 0
Uncrossed (some bid) (some ask) = bid < ask
Uncrossed (some bid) none = ⊥
Uncrossed none ask = ⊥

not-is_empty : (d : Dict ℕ) (k : ℕ) → has d k ≡ true → is_empty d ≡ false
unfolding is_empty
not-is_empty [] k h = cc
not-is_empty (e ∷ d) k h = refl

book_errors_iff :
    (bids asks : Dict ℕ) (bid ask : Option ℕ)
    → IsPositive bids
    → IsPositive asks
    → ((p : ℕ) → bid ≡ some p → has bids p ≡ true)
    → ((p : ℕ) → ask ≡ some p → has asks p ≡ true)
    → (book_errors bids asks bid ask ≡ []) ↔ Uncrossed bid ask
unfolding book_errors
book_errors_iff bids asks none ask b a hb ha =
    rw (active_level_errors-nil bids b, active_level_errors-nil asks a)
      (λ h. ground arith, λ h. absurd h)
book_errors_iff bids asks (some p) none b a hb ha =
    rw (active_level_errors-nil bids b, active_level_errors-nil asks a)
      (λ h. ground arith, λ h. absurd h)
book_errors_iff bids asks (some p) (some q) b a hb ha =
    rw
      (
        active_level_errors-nil bids b,
        active_level_errors-nil asks a,
        not-is_empty bids p (hb p refl),
        not-is_empty asks q (ha q refl),
      )
      (λ h. ground arith, λ h. ground arith)

validate-errors :
    (s : OrderbookState)
    → IsIndexed s.bids
    → IsIndexed s.asks
    → (validate s).1
      ≡ sorted_set (book_errors s.bids.levels s.asks.levels (best_bid s).1 (best_ask s).1)
unfolding validate best_bid best_ask
validate-errors s b a = rw (ensure-eq s b a, ensure-eq s b a)

-- On a book whose sides are indexed and hold positive prices and sizes only, `validate` finds no
-- error exactly when there are a best bid and a best ask and the bid is below the ask.
pub validate-nil_iff :
    (s : OrderbookState)
    → IsIndexed s.bids
    → IsIndexed s.asks
    → IsPositive s.bids.levels
    → IsPositive s.asks.levels
    → ((validate s).1 ≡ []) ↔ Uncrossed (best_bid s).1 (best_ask s).1
validate-nil_iff s b a pb pa =
    let bid = (best_bid s).1 in
    let ask = (best_ask s).1 in
    let iff =
      book_errors_iff s.bids.levels s.asks.levels bid ask pb pa
        (λ p e. ((best_lem s p p b a).0 e).0) (λ p e. ((best_lem s p p b a).1 e).0) in
    let e = validate-errors s b a in
    let sorted = sorted_set-nil_iff (book_errors s.bids.levels s.asks.levels bid ask) in
    (λ h. iff.0 (sorted.0 (sym e ∙ h)), λ u. e ∙ sorted.1 (iff.1 u))

pub validate-state : (s : OrderbookState) → IsIndexed s.bids → IsIndexed s.asks → (validate s).0 ≡ s
unfolding validate best_bid best_ask
validate-state s b a = rw (ensure-eq s b a, ensure-eq s b a)

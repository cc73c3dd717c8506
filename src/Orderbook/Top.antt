-- ===== src/Orderbook/Top.antt =====
-- What `top_n` and `copy_snapshot` show of a well-formed state.
use somethingtrade.Prelude.{
  ℕ, zero, suc, ◌-◌, ◌<◌, ◌≡◌, refl, ap, sym, ◌∙◌, true, false, Option, none, some, String, List,
  [], ◌∷◌, ◌++◌, map, reverse, arith, ◌==◌, All, All-take, take, head?, get_last?,
}
use somethingtrade.Prelude.Int.{pos}
use mathlib.Core.List.{reverse-cons}
use somethingtrade.Prelude.Sorted.{contains, sorted}
use somethingtrade.Prelude.Dict.{Dict, get, has, keys, get-has}
use somethingtrade.Orderbook.Types.{OrderbookState, OrderbookSnapshot, SideBook, Clocks}
use somethingtrade.Orderbook.State.{best_bid, best_ask, ensure_price_indexes}
use somethingtrade.Orderbook.View.{
  bid_side, ask_side, copy_levels, copy_top_bid_levels, copy_top_ask_levels, top_n, copy_snapshot,
  snapshot_of, first_price, spread_of,
}
use somethingtrade.Orderbook.Index.{IsIndexed-contains}
use somethingtrade.Orderbook.Sound.{IsPositive}
use somethingtrade.Orderbook.Best.{Uncrossed, ensure-eq}
use somethingtrade.Orderbook.WellFormed.{IsWellFormed, IsSound}

abbrev pub prices_of : List (ℕ × ℕ) → List ℕ
prices_of = map (λ e. e.0)

-- The levels are those at the given prices, in their order.
abbrev pub Shows : Dict ℕ → List ℕ → Option (List (ℕ × ℕ)) → Type 0
Shows book prices shown =
    (levels : List (ℕ × ℕ)) × (shown ≡ some levels)
    × (prices_of levels ≡ prices)
    × All (λ e. get book e.0 ≡ some e.1) levels

positive-size : (d : Dict ℕ) (k v : ℕ) → IsPositive d → get d k ≡ some v → 0 < v
positive-size [] k v h e = cc
positive-size ((j, w) ∷ d) k v h e = ground (arith, positive-size d k v h.1)

copy_levels-Shows :
    (book : Dict ℕ) (prices : List ℕ)
    → IsPositive book
    → All (λ p. has book p ≡ true) prices
    → Shows book prices (copy_levels book prices)
unfolding copy_levels
copy_levels-Shows book [] h m = ([], refl, refl, tt)
copy_levels-Shows book (p ∷ ps) h m =
    let (size, e) = get-has book p m.0 in
    let (levels, shown, same, all) = copy_levels-Shows book ps h m.1 in
    let some_size : (size == 0) ≡ false = let lt = positive-size book p size h e in ground arith in
    ((p, size) ∷ levels, rw (e, shown, some_size), ap (◌∷◌ p) same, (e, all))

All-contains : (P : ℕ → Type 0) (l : List ℕ) → ((p : ℕ) → contains l p ≡ true → P p) → All P l
All-contains P [] h = tt
All-contains P (x ∷ l) h = (h x (ground arith), All-contains P l (λ p c. h p (ground arith)))

All-snoc : (P : ℕ → Type 0) (l : List ℕ) (x : ℕ) → All P l → P x → All P (l ++ x ∷ [])
All-snoc P [] x h p = (p, tt)
All-snoc P (y ∷ l) x h p = (h.0, All-snoc P l x h.1 p)

All-reverse : (P : ℕ → Type 0) (l : List ℕ) → All P l → All P (reverse l)
All-reverse P [] h = tt
All-reverse P (x ∷ l) h = rw reverse-cons (All-snoc P (reverse l) x (All-reverse P l h.1) h.0)

index-All : (side : SideBook) → IsSound side → All (λ p. has side.levels p ≡ true) side.prices_asc
index-All side h =
    All-contains (λ p. has side.levels p ≡ true) side.prices_asc
      (λ p c. sym (IsIndexed-contains side p h.indexed) ∙ c)

bids-Shows :
    (n : ℕ) (side : SideBook)
    → IsSound side
    → Shows side.levels (take n (reverse side.prices_asc)) (copy_top_bid_levels n side)
unfolding copy_top_bid_levels
bids-Shows n side h = copy_levels-Shows side.levels (take n (reverse side.prices_asc)) h.positive (
    All-take (λ p. has side.levels p ≡ true) n (reverse side.prices_asc)
      (All-reverse (λ p. has side.levels p ≡ true) side.prices_asc (index-All side h)))

asks-Shows :
    (n : ℕ) (side : SideBook)
    → IsSound side
    → Shows side.levels (take n side.prices_asc) (copy_top_ask_levels n side)
unfolding copy_top_ask_levels
asks-Shows n side h =
    copy_levels-Shows side.levels (take n side.prices_asc) h.positive
      (All-take (λ p. has side.levels p ≡ true) n side.prices_asc (index-All side h))

-- On a well-formed state `top_n` finds a size for every price: for bids it returns the `n` highest
-- prices from the highest down, for asks the `n` lowest from the lowest up (all, if there are
-- fewer), each with its size in the book, and the state does not change.
pub top_n_lem :
    (n : ℕ) (s : OrderbookState)
    → IsWellFormed s
    → Shows s.bids.levels (take n (reverse (sorted (keys s.bids.levels)))) (top_n bid_side n s).1
      × Shows s.asks.levels (take n (sorted (keys s.asks.levels))) (top_n ask_side n s).1
      × ((top_n bid_side n s).0 ≡ s)
      × ((top_n ask_side n s).0 ≡ s)
unfolding top_n
top_n_lem n s h =
    let e = ensure-eq s h.bids.indexed h.asks.indexed in
    rw e (
      rw (← h.bids.indexed.index) (bids-Shows n s.bids h.bids),
      rw (← h.asks.indexed.index) (asks-Shows n s.asks h.asks),
      refl,
      refl,
    )

head-append {ℓ} :
    {A : Type ℓ} (a : A) (xs ys : List A) → head? xs ≡ some a → head? (xs ++ ys) ≡ some a
head-append a [] ys h = cc
head-append a (x ∷ xs) ys h = h

last_is {ℓ} : {A : Type ℓ} (x y : A) (l : List A) → (z : A) × (get_last? (y ∷ l) ≡ some z)
last_is x y [] = (y, refl)
last_is x y (z ∷ l) = last_is y z l

head-reverse {ℓ} : {A : Type ℓ} (l : List A) → head? (reverse l) ≡ get_last? l
head-reverse [] = refl
head-reverse (x ∷ []) = refl
head-reverse (x ∷ y ∷ l) =
    let (z, e) = last_is x y l in
    rw (reverse-cons x (y ∷ l))
      (head-append z (reverse (y ∷ l)) (x ∷ []) (head-reverse (y ∷ l) ∙ e) ∙ sym e)

first_price-head : (levels : List (ℕ × ℕ)) → first_price levels ≡ head? (prices_of levels)
first_price-head [] = refl
first_price-head ((p, q) ∷ levels) = refl

head-take {ℓ} : {A : Type ℓ} (n : ℕ) (l : List A) → 0 < n → head? (take n l) ≡ head? l
head-take zero l h = absurd (omega arith)
head-take (suc n) [] h = refl
head-take (suc n) (x ∷ l) h = refl

-- What a snapshot of the book says, for a positive number of levels.
pub record Consistent (s : OrderbookState) (snap : OrderbookSnapshot) : Type 0 where
  pub bid : snap.best_bid ≡ (best_bid s).1
  pub ask : snap.best_ask ≡ (best_ask s).1
  pub version : (snap.snapshot_version ≡ s.state_version) × (snap.state_version ≡ s.state_version)
  pub generation : snap.generation_id ≡ s.generation
  pub spread : s.ready_to_emit ≡ true → (k : ℕ) × (snap.spread ≡ some (pos (suc k)))

spread_pos :
    (bid ask : Option ℕ) → Uncrossed bid ask → (k : ℕ) × (spread_of bid ask ≡ some (pos (suc k)))
spread_pos (some b) (some a) u = (a - b - 1, ground arith)
spread_pos (some b) none u = absurd u
spread_pos none a u = absurd u

shown :
    (c : Clocks) (t : Option ℕ) (w : Option String) (s : OrderbookState) (bids asks : List (ℕ × ℕ))
    → ensure_price_indexes s ≡ s
    → first_price bids ≡ get_last? s.bids.prices_asc
    → first_price asks ≡ head? s.asks.prices_asc
    → (s.ready_to_emit ≡ true → Uncrossed (get_last? s.bids.prices_asc) (head? s.asks.prices_asc))
    → Consistent s (snapshot_of c t w s bids asks)
unfolding snapshot_of best_bid best_ask
shown c t w s bids asks e b a u = record {
  bid = rw e b;
  ask = rw e a;
  version = (refl, refl);
  generation = refl;
  spread = λ r. rw (b, a) (spread_pos _ _ (u r));
}

-- On a well-formed state a copy of at least one level is made, its best prices are those of the
-- state, its versions and generation are the state's, and when the state is ready its spread is
-- positive.
pub copy_snapshot-Consistent :
    (c : Clocks) (n : ℕ) (t : Option ℕ) (w : Option String) (s : OrderbookState)
    → IsWellFormed s
    → 0 < n
    → (snap : OrderbookSnapshot) × ((copy_snapshot c n t w s).1 ≡ some snap) × Consistent s snap
unfolding copy_snapshot best_bid best_ask
copy_snapshot-Consistent c n t w s h pos_n =
    let e = ensure-eq s h.bids.indexed h.asks.indexed in
    let (bids, be, bp, _) = bids-Shows n s.bids h.bids in
    let (asks, ae, ap', _) = asks-Shows n s.asks h.asks in
    let bid : first_price bids ≡ get_last? s.bids.prices_asc =
      first_price-head bids
      ∙ ap head? bp
      ∙ head-take n (reverse s.bids.prices_asc) pos_n
      ∙ head-reverse s.bids.prices_asc in
    let ask : first_price asks ≡ head? s.asks.prices_asc =
      first_price-head asks ∙ ap head? ap' ∙ head-take n s.asks.prices_asc pos_n in
    (
      snapshot_of c t w s bids asks,
      rw (e, be, ae),
      shown c t w s bids asks e bid ask (λ r. (h.ready r).uncrossed),
    )

-- ===== src/Market/Quotes.antt =====
-- Which quotes of the state are complete.
use somethingtrade.Prelude.{
  ℕ, ◌≡◌, ◌↔◌, refl, ap, ◌∙◌, inl, inr, String, str_eq, Bool, true, false, not, ◌&&◌, List, [], ◌∷◌,
  Bool-cases, All, eq_iff,
}
use somethingtrade.Prelude.Texts.{Texts, set, member, member-add, member-add_self}
use somethingtrade.Market.Types.{
  PolymarketQuote, MarketLifecycleEvent, Event, tick, top, depth, quote, lifecycle, MarketState,
}
use somethingtrade.Market.Apply.{
  Now, is_stale_quote, check_valid, check_fresh, checked_quote, stamped_quote, invalidate_quotes,
  ends_market, end_market, apply_tick, apply_top, apply_depth, apply_lifecycle, apply,
}

valid_complete :
    (b : Bool) (q : PolymarketQuote) → (check_valid b q).book_complete ≡ (not b && q.book_complete)
valid_complete true q = refl
valid_complete false q = refl

fresh_complete :
    (b : Bool) (q : PolymarketQuote) → (check_fresh b q).book_complete ≡ (not b && q.book_complete)
fresh_complete true q = refl
fresh_complete false q = refl

valid-stale :
    (b : Bool) (q : PolymarketQuote) (max_age : ℕ) (now : Now)
    → is_stale_quote max_age (check_valid b q) now.0 now.1 ≡ is_stale_quote max_age q now.0 now.1
unfolding is_stale_quote
valid-stale true q max_age now = refl
valid-stale false q max_age now = refl

all_three :
    (stale invalid complete : Bool)
    → ((not stale && (not invalid && complete)) ≡ true)
      ↔ ((complete ≡ true) × (invalid ≡ false) × (stale ≡ false))
all_three false false true = (λ h. (refl, refl, refl), λ h. refl)
all_three false false false = (λ h. cc, λ h. cc)
all_three false true c = (λ h. cc, λ h. cc)
all_three true i c = (λ h. cc, λ h. cc)

-- A checked quote is complete exactly when it was complete, its market is not invalid, and it is not
-- stale.
pub stamped_quote-book_complete_iff :
    (s : MarketState) (now : Now) (q : PolymarketQuote)
    → ((stamped_quote s now q).book_complete ≡ true) ↔ (
        (q.book_complete ≡ true)
        × (member s.market_invalid q.market_id ≡ false)
        × (is_stale_quote s.max_polymarket_quote_age_ns q now.0 now.1 ≡ false))
unfolding checked_quote
stamped_quote-book_complete_iff s now q =
    let invalid = member s.market_invalid q.market_id in
    let q1 = check_valid invalid q in
    let age = s.max_polymarket_quote_age_ns in
    let same = valid-stale invalid q age now in
    let e : (stamped_quote s now q).book_complete
        ≡ (not (is_stale_quote age q now.0 now.1) && (not invalid && q.book_complete)) =
      fresh_complete (is_stale_quote age q1 now.0 now.1) q1
      ∙ (ap (λ c. not (is_stale_quote age q1 now.0 now.1) && c) (valid_complete invalid q)
          ∙ ap (λ t. not t && (not invalid && q.book_complete)) same) in
    rw e (all_three (is_stale_quote age q now.0 now.1) invalid q.book_complete)

-- The quote is complete and of the market.
abbrev pub is_offered : String → PolymarketQuote → Bool
is_offered market_id q = q.book_complete && str_eq q.market_id market_id

abbrev pub IsNotOffered : String → Event → Type 0
IsNotOffered market_id (quote q) = is_offered market_id q ≡ false
IsNotOffered market_id e = Unit

check-market_id :
    (a b : Bool) (q : PolymarketQuote) → (check_fresh a (check_valid b q)).market_id ≡ q.market_id
check-market_id true true q = refl
check-market_id true false q = refl
check-market_id false true q = refl
check-market_id false false q = refl

check-token_id :
    (a b : Bool) (q : PolymarketQuote) → (check_fresh a (check_valid b q)).token_id ≡ q.token_id
check-token_id true true q = refl
check-token_id true false q = refl
check-token_id false true q = refl
check-token_id false false q = refl

pub stamped_quote-token_id :
    (s : MarketState) (now : Now) (q : PolymarketQuote)
    → (stamped_quote s now q).token_id ≡ q.token_id
unfolding checked_quote
stamped_quote-token_id s now q = check-token_id _ (member s.market_invalid q.market_id) q

stamped_quote-market_id :
    (s : MarketState) (now : Now) (q : PolymarketQuote)
    → (stamped_quote s now q).market_id ≡ q.market_id
unfolding checked_quote
stamped_quote-market_id s now q = check-market_id _ (member s.market_invalid q.market_id) q

-- Every stored quote of the market is incomplete, and the market is invalid.
record IsClosed (id : String) (s : MarketState) : Type 0 where
  pub invalid : member s.market_invalid id ≡ true
  pub stored : All (λ e. is_offered id e.1 ≡ false) s.polymarket_quotes

set-All :
    (P : PolymarketQuote → Type 0) (d : Texts PolymarketQuote) (k : String) (q : PolymarketQuote)
    → All (λ e. P e.1) d
    → P q
    → All (λ e. P e.1) (set d k q)
set-All P [] k q a h = (h, tt)
set-All P ((j, w) ∷ d) k q a h = elim (Bool-cases (str_eq j k)) [
  | inl here ↦ rw here (h, a.1)
  | inr other ↦ rw other (a.0, set-All P d k q a.1 h)
]

incomplete-is_offered :
    (id : String) (q : PolymarketQuote) → q.book_complete ≡ false → is_offered id q ≡ false
incomplete-is_offered id q h = rw h refl

invalidate_quotes-All :
    (market_id id : String) (l : Texts PolymarketQuote)
    → All (λ e. is_offered id e.1 ≡ false) l
    → All (λ e. is_offered id e.1 ≡ false) (invalidate_quotes market_id l)
invalidate_quotes-All market_id id [] a = tt
invalidate_quotes-All market_id id ((t, q) ∷ l) a =
    elim (Bool-cases (str_eq q.market_id market_id)) [
      | inl here ↦ rw here (refl, invalidate_quotes-All market_id id l a.1)
      | inr other ↦ rw other (a.0, invalidate_quotes-All market_id id l a.1)
    ]

-- Invalidation leaves no complete quote of its market.
invalidate_quotes-closed :
    (id : String) (l : Texts PolymarketQuote)
    → All (λ e. is_offered id e.1 ≡ false) (invalidate_quotes id l)
invalidate_quotes-closed id [] = tt
invalidate_quotes-closed id ((t, q) ∷ l) = elim (Bool-cases (str_eq q.market_id id)) [
  | inl here ↦ rw here (refl, invalidate_quotes-closed id l)
  | inr other ↦ rw other (other_market id q other, invalidate_quotes-closed id l)
]
  where
    other_market :
        (id : String) (q : PolymarketQuote)
        → str_eq q.market_id id ≡ false
        → is_offered id q ≡ false
    other_market id q h = elim (Bool-cases q.book_complete) [
      | inl complete ↦ rw (complete, h) refl
      | inr incomplete ↦ rw incomplete refl
    ]

stamped_quote-closed :
    (id : String) (s : MarketState) (now : Now) (q : PolymarketQuote)
    → member s.market_invalid id ≡ true
    → is_offered id (stamped_quote s now q) ≡ false
stamped_quote-closed id s now q h = elim (Bool-cases (stamped_quote s now q).book_complete) [
  | inr incomplete ↦ incomplete-is_offered id (stamped_quote s now q) incomplete
  | inl complete ↦ elim (Bool-cases (str_eq q.market_id id)) [
    | inl same ↦
        let valid = ((stamped_quote-book_complete_iff s now q).0 complete).1 in
        let at : q.market_id ≡ id = (eq_iff q.market_id id).0 same in
        let bad : member s.market_invalid id ≡ false = rw (← at) valid in cc
    | inr other ↦ rw (complete, stamped_quote-market_id s now q, other) refl
  ]
]

end_market-IsClosed :
    (b : Bool) (market_id id : String) (s : MarketState)
    → IsClosed id s
    → IsClosed id (end_market b market_id s)
end_market-IsClosed false market_id id s h = h
end_market-IsClosed true market_id id s h = record {
  invalid = member-add market_id id s.market_invalid h.invalid;
  stored = invalidate_quotes-All market_id id s.polymarket_quotes h.stored;
}

apply-IsClosed :
    (id : String) (now : Now) (e : Event) (s : MarketState)
    → IsClosed id s
    → IsClosed id (apply now e s).0 × IsNotOffered id (apply now e s).1
unfolding apply apply_tick apply_top apply_depth apply_lifecycle
apply-IsClosed id now (tick e) s h = (record { invalid = h.invalid; stored = h.stored }, tt)
apply-IsClosed id now (top e) s h = (record { invalid = h.invalid; stored = h.stored }, tt)
apply-IsClosed id now (depth e) s h = (record { invalid = h.invalid; stored = h.stored }, tt)
apply-IsClosed id now (quote q) s h =
    let off = stamped_quote-closed id s now q h.invalid in
    (
      record {
        invalid = h.invalid;
        stored =
            set-All (λ p. is_offered id p ≡ false) s.polymarket_quotes
              (stamped_quote s now q).token_id (stamped_quote s now q) h.stored off;
      },
      off,
    )
apply-IsClosed id now (lifecycle e) s h = (
  end_market-IsClosed (ends_market e.lifecycle_type) e.market_id id _
      (record { invalid = h.invalid; stored = h.stored }),
  tt,
)

-- The state after events, each with the clocks at its time, and the events as they are returned.
unfoldable pub run : List (Now × Event) → MarketState → MarketState × List Event
run [] s = (s, [])
run ((now, e) ∷ l) s = let (s1, e') = apply now e s in let (s2, rest) = run l s1 in (s2, e' ∷ rest)

run-IsClosed :
    (id : String) (l : List (Now × Event)) (s : MarketState)
    → IsClosed id s
    → let (s', out) = run l s in
      All (λ e. is_offered id e.1 ≡ false) s'.polymarket_quotes × All (IsNotOffered id) out
unfolding run
run-IsClosed id [] s h = (h.stored, tt)
run-IsClosed id ((now, e) ∷ l) s h =
    let (closed, off) = apply-IsClosed id now e s h in
    let (stored, out) = run-IsClosed id l (apply now e s).0 closed in (stored, (off, out))

-- After an event that ends a market, over any later run of events, no stored quote and no quote
-- that is returned is both of that market and complete.
pub run-closed :
    (e : MarketLifecycleEvent) (now : Now) (l : List (Now × Event)) (s : MarketState)
    → ends_market e.lifecycle_type ≡ true
    → let (s', out) = run l (apply now (lifecycle e) s).0 in
      All (λ t. is_offered e.market_id t.1 ≡ false) s'.polymarket_quotes
      × All (IsNotOffered e.market_id) out
unfolding apply apply_lifecycle
run-closed e now l s ends = run-IsClosed e.market_id l (apply now (lifecycle e) s).0 (
    simp ends (record {
      invalid = member-add_self e.market_id s.market_invalid;
      stored = invalidate_quotes-closed e.market_id s.polymarket_quotes;
    }))

-- ===== src/Orderbook/Reasons.antt =====
-- `tuple(sorted(set(errors)))` over the error names of bot/app/marketdata/orderbook_state.py and
-- bot/app/marketdata/orderbook_quality.py.
use somethingtrade.Prelude.{
  ℕ, ◌≡◌, refl, Bool, false, ◌||◌, List, [], ◌∷◌, arith, ◌==◌, ltb, if◌then◌else◌, ap, ◌∙◌, ◌↔◌,
}
use somethingtrade.Orderbook.Types.{
  Reason, best_ask_missing, best_bid_missing, book_empty, crossed_book, invalid_price_level,
  invalid_size_level, negative_price, negative_size, non_finite_price, non_finite_size,
  one_side_missing, queue_lag_exceeded, reported_best_ask_mismatch, reported_best_bid_mismatch,
  sample_before_book_ready, snapshot_inconsistent, stale_book,
}

-- The place of a name in the alphabet.
unfoldable pub rank : Reason → ℕ
rank best_ask_missing = 0
rank best_bid_missing = 1
rank book_empty = 2
rank crossed_book = 3
rank Reason.duplicate_update = 4
rank invalid_price_level = 5
rank invalid_size_level = 6
rank negative_price = 7
rank negative_size = 8
rank non_finite_price = 9
rank non_finite_size = 10
rank one_side_missing = 11
rank Reason.previous_final_update_id_mismatch = 12
rank queue_lag_exceeded = 13
rank reported_best_ask_mismatch = 14
rank reported_best_bid_mismatch = 15
rank sample_before_book_ready = 16
rank Reason.sequence_gap_or_reset = 17
rank snapshot_inconsistent = 18
rank stale_book = 19

-- Inserts a name at its place, unless it is there.
abbrev pub insert_reason : Reason → List Reason → List Reason
insert_reason r [] = r ∷ []
insert_reason r (q ∷ l) =
    if ltb (rank r) (rank q)
    then r ∷ q ∷ l
    else if rank r == rank q
    then q ∷ l
    else q ∷ insert_reason r l

unfoldable pub sorted_set : List Reason → List Reason
sorted_set [] = []
sorted_set (r ∷ l) = insert_reason r (sorted_set l)

abbrev pub mentions : List Reason → Reason → Bool
mentions [] r = false
mentions (q ∷ l) r = (rank q == rank r) || mentions l r

mentions-insert :
    (r q : Reason) (l : List Reason)
    → mentions (insert_reason r l) q ≡ ((rank r == rank q) || mentions l q)
mentions-insert r q [] = refl
mentions-insert r q (p ∷ l) = ground (arith, mentions-insert r q l)

pub mentions-sorted_set : (l : List Reason) (q : Reason) → mentions (sorted_set l) q ≡ mentions l q
unfolding sorted_set
mentions-sorted_set [] q = refl
mentions-sorted_set (r ∷ l) q =
    mentions-insert r q (sorted_set l) ∙ ap (λ b. (rank r == rank q) || b) (mentions-sorted_set l q)

insert-ne-nil : (r : Reason) (l : List Reason) → insert_reason r l ≡ [] → ⊥
insert-ne-nil r [] h = cc
insert-ne-nil r (q ∷ l) h = ground arith

pub sorted_set-nil_iff : (l : List Reason) → (sorted_set l ≡ []) ↔ (l ≡ [])
unfolding sorted_set
sorted_set-nil_iff [] = (λ h. h, λ h. h)
sorted_set-nil_iff (r ∷ l) = (λ h. absurd (insert-ne-nil r (sorted_set l) h), λ h. cc)

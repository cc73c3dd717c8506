-- ===== src/Polymarket/Counting.antt =====
-- The counts of complete, incomplete and stale quotes of a token, beside the quotes of a run.
use somethingtrade.Prelude.{
  ℕ, ◌+◌, ◌≡◌, refl, ap, sym, ◌∙◌, inl, inr, String, str_eq, Bool, true, false, not, Option, none,
  some, [], ◌∷◌, Bool-cases, eq_iff, if◌then◌else◌,
}
use somethingtrade.Prelude.Texts.{Texts, find, find-set, find-set_other}
use somethingtrade.Polymarket.Types.{
  UpdateType, book, price_change, best_bid_ask, BookError, best_bid_size_unknown,
  best_ask_size_unknown, TokenBook, TokenBookReadiness, PolymarketQuote,
}
use somethingtrade.Polymarket.Readiness.{
  increment_readiness_error, record_update_type, record_complete, record_stale, record_size,
  record_error, record_quote, new_readiness, record_reconnect, add_readiness, or_new, readiness_for,
  record_readiness, first_of,
}

-- The three counts.
abbrev pub Counts : Type 0
Counts = ℕ × ℕ × ℕ

abbrev pub counts_of : TokenBookReadiness → Counts
counts_of r = (r.book_complete_true_count, r.book_complete_false_count, r.quote_stale_count)

abbrev pub up_if : Bool → ℕ → ℕ
up_if true n = n + 1
up_if false n = n

-- The counts with one quote more.
abbrev pub count_quote : PolymarketQuote → Counts → Counts
count_quote q (complete, incomplete, stale) = (
  up_if q.book_complete complete,
  up_if (not q.book_complete) incomplete,
  up_if q.book_stale stale,
)

abbrev pub found_counts : Option TokenBookReadiness → Counts
found_counts none = (0, 0, 0)
found_counts (some r) = counts_of r

-- The counts of a token, all zero where it has none.
abbrev pub token_counts : Texts TokenBookReadiness → String → Counts
token_counts readiness token = found_counts (find readiness token)

update_type-counts :
    (t : UpdateType) (before : Bool) (now : ℕ) (r : TokenBookReadiness)
    → counts_of (record_update_type t before now r) ≡ counts_of r
unfolding record_update_type increment_readiness_error
update_type-counts book before now r = refl
update_type-counts price_change false now r = refl
update_type-counts price_change true now r = refl
update_type-counts best_bid_ask false now r = refl
update_type-counts best_bid_ask true now r = refl

size-counts :
    (e : BookError) (t : UpdateType) (price size : Option ℕ) (r : TokenBookReadiness)
    → counts_of (record_size e t price size r) ≡ counts_of r
unfolding record_size increment_readiness_error
size-counts e t none size r = refl
size-counts e t (some price) none r = refl
size-counts e t (some price) (some size) r = refl

error-counts :
    (e : Option BookError) (t : UpdateType) (r : TokenBookReadiness)
    → counts_of (record_error e t r) ≡ counts_of r
unfolding record_error increment_readiness_error
error-counts none t r = refl
error-counts (some e) t r = refl

complete-counts :
    (complete stale : Bool) (now : ℕ) (r : TokenBookReadiness)
    → counts_of (record_stale stale (record_complete complete now r)) ≡ (
      up_if complete r.book_complete_true_count,
      up_if (not complete) r.book_complete_false_count,
      up_if stale r.quote_stale_count,
    )
unfolding record_stale record_complete
complete-counts true true now r = refl
complete-counts true false now r = refl
complete-counts false true now r = refl
complete-counts false false now r = refl

record_quote-counts :
    (t : UpdateType) (before : Bool) (now : ℕ) (q : PolymarketQuote) (r : TokenBookReadiness)
    → counts_of (record_quote t before now q r) ≡ count_quote q (counts_of r)
unfolding record_quote
record_quote-counts t before now q r =
    let r1 = record r { first_ws_message_ts_ns = first_of r.first_ws_message_ts_ns now } in
    let r2 = record_update_type t before now r1 in
    let r4 = record_stale q.book_stale (record_complete q.book_complete now r2) in
    let r5 = record_size best_bid_size_unknown t q.best_bid q.best_bid_size r4 in
    let r6 = record_size best_ask_size_unknown t q.best_ask q.best_ask_size r5 in
    error-counts q.validation_error t r6
    ∙ (size-counts best_ask_size_unknown t q.best_ask q.best_ask_size r5
        ∙ (size-counts best_bid_size_unknown t q.best_bid q.best_bid_size r4
            ∙ (complete-counts q.book_complete q.book_stale now r2
                ∙ ap (count_quote q) (update_type-counts t before now r1))))

or_new-counts :
    (o : Option TokenBookReadiness) (token market_id : String)
    → counts_of (or_new o token market_id) ≡ found_counts o
or_new-counts none token market_id = refl
or_new-counts (some r) token market_id = refl

-- The quotes of a token, counted in their order.
abbrev pub count_for : String → PolymarketQuote → Counts → Counts
count_for token q n = if str_eq q.token_id token then count_quote q n else n

record_readiness-counts_self :
    (t : UpdateType) (before : Bool) (now : ℕ) (b : TokenBook) (q : PolymarketQuote)
    (readiness : Texts TokenBookReadiness)
    → token_counts (record_readiness t before now b q readiness) b.token_id
      ≡ count_quote q (token_counts readiness b.token_id)
unfolding record_readiness readiness_for
record_readiness-counts_self t before now b q readiness =
    let found = find readiness b.token_id in
    let r = or_new found b.token_id b.metadata.market_id in
    ap found_counts (find-set readiness b.token_id (record_quote t before now q r))
    ∙ (record_quote-counts t before now q r
        ∙ ap (count_quote q) (or_new-counts found b.token_id b.metadata.market_id))

-- Recording a quote counts it for its token, and for no other.
pub record_readiness-counts :
    (t : UpdateType) (before : Bool) (now : ℕ) (b : TokenBook) (q : PolymarketQuote)
    (readiness : Texts TokenBookReadiness) (token : String)
    → q.token_id ≡ b.token_id
    → token_counts (record_readiness t before now b q readiness) token
      ≡ count_for token q (token_counts readiness token)
unfolding record_readiness readiness_for
record_readiness-counts t before now b q readiness token e =
    elim (Bool-cases (str_eq b.token_id token)) [
      | inl same ↦
          let at = (eq_iff b.token_id token).0 same in
          simp (e, same) (rw (← at) (record_readiness-counts_self t before now b q readiness))
      | inr other ↦
          simp (e, other) (ap found_counts (find-set_other readiness b.token_id token _ other))
    ]

-- A token that is new has counts of zero, as it had before.
pub add_readiness-counts :
    (readiness : Texts TokenBookReadiness) (o : Option TokenBookReadiness)
    (k market_id token : String)
    → find readiness k ≡ o
    → token_counts (add_readiness o k market_id readiness) token ≡ token_counts readiness token
add_readiness-counts readiness (some r) k market_id token e = refl
add_readiness-counts readiness none k market_id token e = elim (Bool-cases (str_eq k token)) [
  | inl same ↦
      rw (← (eq_iff k token).0 same) (
        ap found_counts (find-set readiness k (new_readiness k market_id))
        ∙ sym (ap found_counts e))
  | inr other ↦ ap found_counts (find-set_other readiness k token (new_readiness k market_id) other)
]

pub reconnect-counts :
    (readiness : Texts TokenBookReadiness) (token : String)
    → token_counts (record_reconnect readiness) token ≡ token_counts readiness token
unfolding record_reconnect
reconnect-counts [] token = refl
reconnect-counts ((k, r) ∷ l) token = elim (Bool-cases (str_eq k token)) [
  | inl here ↦ rw here refl
  | inr other ↦ rw other (reconnect-counts l token)
]

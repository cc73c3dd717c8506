-- ===== src/Orderbook/Index.antt =====
-- The price index of a side, for `_apply_level` and `_rebuild_price_indexes` of
-- bot/app/marketdata/orderbook_state.py.
use somethingtrade.Prelude.{
  ℕ, ◌≡◌, ◌≢◌, refl, ap, sym, ◌∙◌, inl, inr, true, false, List, [], ◌∷◌, arith, ◌==◌, Bool-cases,
  length,
}
use somethingtrade.Prelude.Sorted.{
  insort, sorted, discard, contains, Distinct, IsStrict, sorted-append_one, sorted-IsAscending,
  discard-insort_self, discard-insort_ne, length-sorted, IsStrict-of_Distinct, sorted-Distinct,
  contains-sorted,
}
use somethingtrade.Prelude.Dict.{
  Dict, put, remove, keys, has, keys-put, put-Distinct, remove-Distinct, remove_absent, length-keys,
}
use somethingtrade.Orderbook.Types.{ParsedLevel, SideBook}
use somethingtrade.Orderbook.Side.{apply_level, apply_levels, rebuild_prices, levels_of, is_current}

-- Each price stands once, and the index is the sorted list of the prices.
pub record IsIndexed (side : SideBook) : Type 0 where
  pub distinct : Distinct (keys side.levels)
  pub index : side.prices_asc ≡ sorted (keys side.levels)

sorted-keys-remove :
    (d : Dict ℕ) (k : ℕ)
    → Distinct (keys d)
    → has d k ≡ true
    → sorted (keys (remove d k)) ≡ discard k (sorted (keys d))
sorted-keys-remove [] k h c = cc
sorted-keys-remove ((j, v) ∷ d) k h c = elim (Bool-cases (j == k)) [
  | inl here ↦
      let e : j ≡ k = ground arith in
      let away : has d k ≡ false = rw (← e) h.0 in
      rw (here, remove_absent d k away, e) (sym (discard-insort_self k (sorted (keys d))))
  | inr other ↦
      let n : j ≢ k = ground arith in
      let c' : has d k ≡ true = ground arith in
      rw (other, sorted-keys-remove d k h.1 c')
        (sym (discard-insort_ne k j (sorted (keys d)) (sorted-IsAscending (keys d)) n))
]

-- Applying a level keeps the index, on each of its branches.
pub apply_level-IsIndexed :
    (side : SideBook) (level : ParsedLevel) → IsIndexed side → IsIndexed (apply_level side level)
unfolding apply_level
apply_level-IsIndexed side level h = elim (Bool-cases (level.size == 0)) [
  | inl gone ↦ elim (Bool-cases (has side.levels level.price)) [
    | inl old ↦
        rw (gone, old)
          (record {
            distinct = remove-Distinct side.levels level.price h.distinct;
            index =
                ap (discard level.price) h.index
                ∙ sym (sorted-keys-remove side.levels level.price h.distinct old);
          })
    | inr new ↦ rw (gone, new) h
  ]
  | inr stays ↦ elim (Bool-cases (has side.levels level.price)) [
    | inl old ↦
        rw (stays, old)
          (record {
            distinct = put-Distinct side.levels level.price level.size h.distinct;
            index = rw (keys-put, old) h.index;
          })
    | inr new ↦
        rw (stays, new)
          (record {
            distinct = put-Distinct side.levels level.price level.size h.distinct;
            index =
                rw (keys-put, new)
                  (ap (insort level.price) h.index
                    ∙ sym (sorted-append_one (keys side.levels) level.price));
          })
  ]
]

pub apply_levels-IsIndexed :
    (side : SideBook) (levels : List ParsedLevel)
    → IsIndexed side
    → IsIndexed (apply_levels side levels)
unfolding apply_levels
apply_levels-IsIndexed side [] h = h
apply_levels-IsIndexed side (level ∷ rest) h =
    apply_levels-IsIndexed (apply_level side level) rest (apply_level-IsIndexed side level h)

pub levels_of-Distinct :
    (d : Dict ℕ) (levels : List ParsedLevel)
    → Distinct (keys d)
    → Distinct (keys (levels_of d levels))
unfolding levels_of
levels_of-Distinct d [] h = h
levels_of-Distinct d (level ∷ rest) h =
    levels_of-Distinct (put d level.price level.size) rest (put-Distinct d level.price level.size h)

pub rebuild-IsIndexed :
    (side : SideBook) → Distinct (keys side.levels) → IsIndexed (rebuild_prices side)
unfolding rebuild_prices
rebuild-IsIndexed side h = record { distinct = h; index = refl }

pub IsIndexed-is_current : (side : SideBook) → IsIndexed side → is_current side ≡ true
unfolding is_current
IsIndexed-is_current side h =
    ground (
      arith,
      ap (length {A = ℕ}) h.index,
      length-sorted (keys side.levels),
      length-keys side.levels,
    )

pub IsIndexed-IsStrict : (side : SideBook) → IsIndexed side → IsStrict side.prices_asc
IsIndexed-IsStrict side h = rw h.index (
    IsStrict-of_Distinct (sorted (keys side.levels)) (sorted-IsAscending (keys side.levels))
      (sorted-Distinct (keys side.levels) h.distinct))

pub IsIndexed-contains :
    (side : SideBook) (price : ℕ)
    → IsIndexed side
    → contains side.prices_asc price ≡ has side.levels price
IsIndexed-contains side price h = rw h.index (contains-sorted price (keys side.levels))

-- ===== src/Polymarket/Samples.antt =====
-- How many samples of a token are written in a minute.
use somethingtrade.Prelude.{
  ℕ, ◌+◌, ◌≤◌, ◌≡◌, refl, ap, sym, ◌∙◌, inl, inr, String, str_eq, Bool, true, false, ◌&&◌, List, [],
  ◌∷◌, ◌++◌, Bool-cases, eq_iff, if◌then◌else◌, ltb, ltb→lt, ◌==◌, ==_iff, arith,
}
use somethingtrade.Prelude.Texts.{str_eq_refl}
use somethingtrade.Polymarket.Types.{UpdateType, TokenBook, Mismatches, MismatchSample}
use somethingtrade.Polymarket.Reported.{samples_of, count_sample, sample_below}

-- The samples of a token in a minute that were written.
abbrev pub written : List MismatchSample → String → ℕ → ℕ
written [] token minute = 0
written (x ∷ l) token minute =
    (if str_eq x.token_id token && (x.minute == minute) then 1 else 0) + written l token minute

-- Each count is the number of samples written, and within the limit.
pub record IsLimited (limit : ℕ) (m : Mismatches) : Type 0 where
  pub counted :
      (token : String) (minute : ℕ)
      → samples_of m.sample_counts token minute ≡ written m.samples token minute
  pub limited : (token : String) (minute : ℕ) → written m.samples token minute ≤ limit

written-append :
    (l : List MismatchSample) (x : MismatchSample) (token : String) (minute : ℕ)
    → written (l ++ x ∷ []) token minute
      ≡ written l token minute + (if str_eq x.token_id token && (x.minute == minute) then 1 else 0)
written-append [] x token minute = omega arith
written-append (y ∷ l) x token minute = omega (arith, written-append l x token minute)

same_key : (t t' : String) (u u' : ℕ) → (str_eq t t' && (u == u')) ≡ true → (t ≡ t') × (u ≡ u')
same_key t t' u u' h = elim (Bool-cases (str_eq t t')) [
  | inl e ↦ ((eq_iff t t').0 e, (==_iff u u').0 (sym (ap (λ b. b && (u == u')) e) ∙ h))
  | inr n ↦ let f : (str_eq t t' && (u == u')) ≡ false = rw n refl in cc
]

same_key_refl : (t : String) (u : ℕ) → (str_eq t t && (u == u)) ≡ true
same_key_refl t u = rw (str_eq_refl t) ((==_iff u u).1 refl)

differ_key :
    (t t' token : String) (u u' minute : ℕ)
    → (str_eq t' t && (u' == u)) ≡ false
    → (str_eq t' token && (u' == minute)) ≡ true
    → (str_eq t token && (u == minute)) ≡ false
differ_key t t' token u u' minute d h = elim (Bool-cases (str_eq t token && (u == minute))) [
  | inr n ↦ n
  | inl same ↦
      let (e, f) = same_key t' token u' minute h in
      let (g, k) = same_key t token u minute same in
      let again : (str_eq t' t && (u' == u)) ≡ true =
        rw (e, f, g, k) (same_key_refl token minute) in
      cc
]

-- The count after one more, by what the tests on the keys give.
step_count :
    (n rest rest' : ℕ) (x y z : Bool)
    → (x ≡ true → y ≡ z)
    → (x ≡ false → y ≡ true → z ≡ false)
    → rest' ≡ rest + (if z then 1 else 0)
    → (if x then (if y then n + 1 else rest) else (if y then n else rest'))
      ≡ (if y then n else rest) + (if z then 1 else 0)
step_count n rest rest' true true true f g h = omega arith
step_count n rest rest' true true false f g h = let e = f refl in cc
step_count n rest rest' true false true f g h = let e = f refl in cc
step_count n rest rest' true false false f g h = omega arith
step_count n rest rest' false true true f g h = let e = g refl refl in cc
step_count n rest rest' false true false f g h = omega arith
step_count n rest rest' false false z f g h = h

samples_of-if :
    (x : Bool) (c d : List (String × ℕ × ℕ)) (token : String) (minute : ℕ)
    → samples_of (if x then c else d) token minute
      ≡ (if x then samples_of c token minute else samples_of d token minute)
samples_of-if true c d token minute = refl
samples_of-if false c d token minute = refl

-- Counting a sample adds one to its token and minute, and to no other.
count_sample-samples_of :
    (c : List (String × ℕ × ℕ)) (t : String) (u : ℕ) (token : String) (minute : ℕ)
    → samples_of (count_sample c t u) token minute
      ≡ samples_of c token minute + (if str_eq t token && (u == minute) then 1 else 0)
count_sample-samples_of [] t u token minute = elim (Bool-cases (str_eq t token && (u == minute))) [
  | inl e ↦ rw e refl
  | inr n ↦ rw n refl
]
count_sample-samples_of ((t', u', n) ∷ c) t u token minute =
    samples_of-if (str_eq t' t && (u' == u)) _ _ token minute
    ∙ step_count n (samples_of c token minute) (samples_of (count_sample c t u) token minute)
        (str_eq t' t && (u' == u)) (str_eq t' token && (u' == minute))
        (str_eq t token && (u == minute)) (λ h. let (e, f) = same_key t' t u' u h in rw (e, f) refl)
        (λ d h. differ_key t t' token u u' minute d h) (count_sample-samples_of c t u token minute)

pub sample_below-IsLimited :
    (limit : ℕ) (t : UpdateType) (minute : ℕ) (b : TokenBook) (m : Mismatches)
    → IsLimited limit m
    → IsLimited limit (sample_below limit t minute b m)
sample_below-IsLimited limit t minute b m h =
    elim (Bool-cases (ltb (samples_of m.sample_counts b.token_id minute) limit)) [
      | inr full ↦ rw full h
      | inl below ↦ rw below (record {
        counted = λ token u.
            count_sample-samples_of m.sample_counts b.token_id minute token u
            ∙ ap (λ n. n + (if str_eq b.token_id token && (minute == u) then 1 else 0))
                (h.counted token u)
            ∙ sym (written-append m.samples _ token u);
        limited = λ token u.
            rw (written-append m.samples _ token u)
              (elim (Bool-cases (str_eq b.token_id token && (minute == u))) [
                | inr other ↦ rw other (omega (arith, h.limited token u))
                | inl here ↦
                    let (e, f) = same_key b.token_id token minute u here in
                    let room = ltb→lt (samples_of m.sample_counts b.token_id minute) limit below in
                    let same : samples_of m.sample_counts b.token_id minute
                        ≡ written m.samples token u =
                      rw (e, f) (h.counted token u) in
                    rw here (omega (arith, room, same))
              ]);
      })
    ]

-- ===== src/Orderbook/Aging.antt =====
-- What `_record_ready_false_age` changes of the state.
use somethingtrade.Prelude.{
  ℕ, ◌≤◌, ◌≡◌, refl, Bool, true, false, Option, none, some, arith, if◌then◌else◌,
}
use somethingtrade.Orderbook.Types.{OrderbookState}
use somethingtrade.Orderbook.State.{record_ready_false_age, ready_false_age}

-- The measuring of the time that the state is not ready changes two counters only, and both grow.
pub record Aged (s t : OrderbookState) : Type 0 where
  pub duration : ℕ
  pub warnings : ℕ
  pub same : t ≡ record s {
    ready_to_emit_false_duration_ns_max = duration;
    ready_to_emit_false_warning_count = warnings;
  }
  pub longer : s.ready_to_emit_false_duration_ns_max ≤ duration
  pub more : s.ready_to_emit_false_warning_count ≤ warnings

Aged-refl : (s : OrderbookState) → Aged s s
Aged-refl s = record {
  duration = s.ready_to_emit_false_duration_ns_max;
  warnings = s.ready_to_emit_false_warning_count;
  same = refl;
  longer = omega arith;
  more = omega arith;
}

ready_false_age-Aged :
    (now : ℕ) (since : Option ℕ) (s : OrderbookState) → Aged s (ready_false_age now since s)
ready_false_age-Aged now none s = Aged-refl s
ready_false_age-Aged now (some since) s = record {
  duration = (ready_false_age now (some since) s).ready_to_emit_false_duration_ns_max;
  warnings = (ready_false_age now (some since) s).ready_to_emit_false_warning_count;
  same = refl;
  longer = ground arith;
  more = ground arith;
}

Aged-if : (b : Bool) (s t : OrderbookState) → Aged s t → Aged s (if b then s else t)
Aged-if true s t h = Aged-refl s
Aged-if false s t h = h

pub record_ready_false_age-Aged :
    (now : ℕ) (s : OrderbookState) → Aged s (record_ready_false_age now s)
unfolding record_ready_false_age
record_ready_false_age-Aged now s =
    Aged-if s.ready_to_emit s _ (ready_false_age-Aged now s.ready_false_since_monotonic_ns s)

-- ===== src/Stale/Silence.antt =====
-- Runs of checks of one feed that stays silent.
use somethingtrade.Prelude.{
  ℕ, ◌+◌, ◌≡◌, refl, ap, ◌∙◌, true, Option, none, some, List, [], ◌∷◌, All, All-map, arith,
}
use somethingtrade.Prelude.Int.{ℤ}
use somethingtrade.Orderbook.Types.{OrderbookState, Clocks}
use somethingtrade.Orderbook.State.{book_age_ns}
use somethingtrade.Stale.{Limits, StalePeriod, Feed, Watch}
use somethingtrade.Stale.Check.{Check, Checked, check_feed, is_feed_stale, note_age}
use somethingtrade.Stale.Verdict.{
  idle, silence_begins, silence_lasts, heard, SameFeed, is_watched, check_feed-Verdict,
}

abbrev pub Checks : Type 0
Checks = List (Clocks × Check)

-- Checks of one feed, one after the other.
unfoldable pub run_checks : Limits → Checks → Feed → Watch → Feed × Watch
run_checks limits [] f w = (f, w)
run_checks limits ((clocks, c) ∷ cs) f w =
    let (f', w', p) = check_feed limits clocks c f w in run_checks limits cs f' w'

-- The feed is watched and silent at the check.
abbrev pub IsSilent : Limits → Feed → Clocks × Check → Type 0
IsSilent limits f x = (is_watched x.1 f ≡ true) × (is_feed_stale limits x.1 f ≡ true)

same-IsSilent :
    (limits : Limits) (f f' : Feed) (x : Clocks × Check)
    → SameFeed f f'
    → IsSilent limits f x
    → IsSilent limits f' x
same-IsSilent limits f f' x (recv, active) (a, s) = (rw active a, rw recv s)

note_age-resets :
    (age : Option ℤ) (w : Watch) → (note_age age w).stale_reset_count ≡ w.stale_reset_count
note_age-resets none w = refl
note_age-resets (some age) w = refl

-- What a check of a silent feed does to the generation and the resets.
record Grows (n : ℕ) (f : Feed) (w : Watch) (f' : Feed) (w' : Watch) : Type 0 where
  pub generation : f'.state.generation ≡ f.state.generation + n
  pub resets : w'.stale_reset_count ≡ w.stale_reset_count + n

abbrev StillSilent : ℕ → Feed → Watch → Checked → Type 0
StillSilent n f w out =
    (q : StalePeriod) × (out.0.open_stale_period ≡ some q)
    × SameFeed f out.0
    × Grows n f w out.0 out.1

begins-StillSilent :
    (limits : Limits) (clocks : Clocks) (c : Check) (f : Feed) (w : Watch)
    → IsSilent limits f (clocks, c)
    → f.open_stale_period ≡ none
    → StillSilent 1 f w (check_feed limits clocks c f w)
unfolding book_age_ns
begins-StillSilent limits clocks c f w h o = elim (check_feed-Verdict limits clocks c f w) [
  | idle a p ↦ cc
  | silence_begins a s e p ↦ (
    p.period,
    p.opened,
    p.same_feed,
    record {
      generation = p.reset.generation_is;
      resets = p.resets ∙ ap (λ (n : ℕ). n + 1) (note_age-resets _ w);
    },
  )
  | silence_lasts q a s e p ↦ cc
  | heard a s p ↦ cc
]

lasts-StillSilent :
    (limits : Limits) (clocks : Clocks) (c : Check) (f : Feed) (w : Watch) (q : StalePeriod)
    → IsSilent limits f (clocks, c)
    → f.open_stale_period ≡ some q
    → StillSilent 0 f w (check_feed limits clocks c f w)
unfolding book_age_ns
lasts-StillSilent limits clocks c f w q h o = elim (check_feed-Verdict limits clocks c f w) [
  | idle a p ↦ cc
  | silence_begins a s e p ↦ cc
  | silence_lasts q' a s e p ↦ (
    p.period,
    p.opened,
    p.same_feed,
    record {
      generation = ap (λ (t : OrderbookState). t.generation) p.spared.state ∙ omega arith;
      resets = omega (arith, p.spared.resets, note_age-resets _ w);
    },
  )
  | heard a s p ↦ cc
]

lasts-Grows :
    (limits : Limits) (cs : Checks) (f : Feed) (w : Watch) (q : StalePeriod)
    → All (IsSilent limits f) cs
    → f.open_stale_period ≡ some q
    → let (f', w') = run_checks limits cs f w in Grows 0 f w f' w'
unfolding run_checks
lasts-Grows limits [] f w q h o = record { generation = omega arith; resets = omega arith }
lasts-Grows limits ((clocks, c) ∷ cs) f w q h o =
    let (q', o', same, g) = lasts-StillSilent limits clocks c f w q h.0 o in
    let out = check_feed limits clocks c f w in
    let rest =
      lasts-Grows limits cs out.0 out.1 q'
        (All-map (IsSilent limits f) (IsSilent limits out.0)
          (λ x k. same-IsSilent limits f out.0 x same k) cs h.1)
        o' in
    record {
      generation = omega (arith, rest.generation, g.generation);
      resets = omega (arith, rest.resets, g.resets);
    }

-- When a feed with no open period is watched and silent at every check of a run of one or more
-- checks, its state goes up one generation and one reset is counted, however many checks there are.
pub run_checks-silent :
    (limits : Limits) (clocks : Clocks) (c : Check) (cs : Checks) (f : Feed) (w : Watch)
    → All (IsSilent limits f) ((clocks, c) ∷ cs)
    → f.open_stale_period ≡ none
    → ((run_checks limits ((clocks, c) ∷ cs) f w).0.state.generation ≡ f.state.generation + 1)
      × ((run_checks limits ((clocks, c) ∷ cs) f w).1.stale_reset_count ≡ w.stale_reset_count + 1)
unfolding run_checks
run_checks-silent limits clocks c cs f w h o =
    let (q, o', same, g) = begins-StillSilent limits clocks c f w h.0 o in
    let out = check_feed limits clocks c f w in
    let rest =
      lasts-Grows limits cs out.0 out.1 q
        (All-map (IsSilent limits f) (IsSilent limits out.0)
          (λ x k. same-IsSilent limits f out.0 x same k) cs h.1)
        o' in
    (omega (arith, rest.generation, g.generation), omega (arith, rest.resets, g.resets))

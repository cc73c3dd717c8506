-- ===== src/Stale/Verdict.antt =====
-- What one check does to a feed, on each of its branches.
use somethingtrade.Prelude.{
  ℕ, ◌+◌, ◌≡◌, refl, ◌∙◌, Bool, true, false, not, ◌&&◌, Option, none, some, if◌then◌else◌, ltb,
  ◌==◌, subst,
}
use somethingtrade.Prelude.Int.{ℤ}
use somethingtrade.Orderbook.Types.{Clocks}
use somethingtrade.Orderbook.State.{book_age_ns}
use somethingtrade.Quality.{is_stale}
use somethingtrade.Lifecycle.Resets.{IsReset, mark_not_ready-IsReset}
use somethingtrade.Stale.{
  Limits, StalePeriod, Feed, Watch, open_period, extend_period, open_or_extend, close_period,
  record_feed_receive_stale, close_stale_period, record_processor_apply_stale,
  record_post_capture_age_warning,
}
use somethingtrade.Stale.Check.{
  Check, Checked, check_feed, check_aged, check_active, check_inactive, check_apply, check_silent,
  check_recovering, clear_apply_stale, is_feed_stale, feed_age_of, without_period, note_age,
}

-- The check is active, and no snapshot is under way for the feed.
abbrev pub is_watched : Check → Feed → Bool
is_watched c f = c.active && not f.snapshot_recovery_active

-- The state is the same and no reset is counted.
pub record Spared (f : Feed) (w : Watch) (f' : Feed) (w' : Watch) : Type 0 where
  pub state : f'.state ≡ f.state
  pub resets : w'.stale_reset_count ≡ w.stale_reset_count
  pub silences : w'.feed_receive_stale_count ≡ w.feed_receive_stale_count

-- The check leaves the receive time and the mark of a snapshot under way.
abbrev pub SameFeed : Feed → Feed → Type 0
SameFeed f f' =
    (f'.last_ws_message_recv_monotonic_ns ≡ f.last_ws_message_recv_monotonic_ns)
    × (f'.snapshot_recovery_active ≡ f.snapshot_recovery_active)

-- A new period is open and given back, and the state is reset.
pub record Opened (f : Feed) (w : Watch) (out : Checked) : Type 0 where
  pub period : StalePeriod
  pub given : out.2 ≡ some period
  pub opened : out.0.open_stale_period ≡ some period
  pub running : period.ended_monotonic_ns ≡ none
  pub reset : IsReset (f.state.generation + 1) out.0.state
  pub same_feed : SameFeed f out.0
  pub resets : out.1.stale_reset_count ≡ w.stale_reset_count + 1
  pub silences : out.1.feed_receive_stale_count ≡ w.feed_receive_stale_count + 1

-- The period that was open is still open and given back, and the state is spared.
pub record Extended (f : Feed) (w : Watch) (p : StalePeriod) (out : Checked) : Type 0 where
  pub period : StalePeriod
  pub given : out.2 ≡ some period
  pub opened : out.0.open_stale_period ≡ some period
  pub same_start : period.started_monotonic_ns ≡ p.started_monotonic_ns
  pub same_feed : SameFeed f out.0
  pub spared : Spared f w out.0 out.1

-- No period is given back.
pub record Passed (f : Feed) (w : Watch) (period : Option StalePeriod) (out : Checked)
    : Type 0 where
  pub opened : out.0.open_stale_period ≡ period
  pub given : out.2 ≡ none
  pub spared : Spared f w out.0 out.1

-- The cases of a check.
pub data Verdict (limits : Limits) (c : Check) (f : Feed) (w : Watch) (out : Checked) : Type 0 where
  idle : is_watched c f ≡ false → Passed f w f.open_stale_period out → Verdict limits c f w out
  silence_begins :
      is_watched c f ≡ true
      → is_feed_stale limits c f ≡ true
      → f.open_stale_period ≡ none
      → Opened f w out
      → Verdict limits c f w out
  silence_lasts :
      (p : StalePeriod)
      → is_watched c f ≡ true
      → is_feed_stale limits c f ≡ true
      → f.open_stale_period ≡ some p
      → Extended f w p out
      → Verdict limits c f w out
  heard :
      is_watched c f ≡ true
      → is_feed_stale limits c f ≡ false
      → Passed f w none out
      → Verdict limits c f w out

either {ℓ κ} :
    {A : Type ℓ} (P : A → Type κ) (b : Bool) (x y : A) → P x → P y → P (if b then x else y)
either P true x y px py = px
either P false x y px py = py

either_at {ℓ κ} :
    {A : Type ℓ} (P : A → Type κ) (b : Bool) (x y : A)
    → (b ≡ true → P x)
    → (b ≡ false → P y)
    → P (if b then x else y)
either_at P true x y px py = px refl
either_at P false x y px py = py refl

-- The pair leaves the state alone, with the given open period.
abbrev Leaves : Feed → Watch → Option StalePeriod → Feed × Watch → Type 0
Leaves f w o out = Spared f w out.0 out.1 × (out.0.open_stale_period ≡ o)

kept : (f : Feed) (w : Watch) → Spared f w f w
kept f w = record { state = refl; resets = refl; silences = refl }

post_capture-Leaves :
    (now : ℕ) (age : ℤ) (f : Feed) (w : Watch)
    → Leaves f w f.open_stale_period (record_post_capture_age_warning now age f w)
unfolding record_post_capture_age_warning
post_capture-Leaves now age f w =
    either (Leaves f w f.open_stale_period) f.post_capture_warning _ _
      (record { state = refl; resets = refl; silences = refl }, refl)
      (record { state = refl; resets = refl; silences = refl }, refl)

check_inactive-Leaves :
    (limits : Limits) (c : Check) (age : Option ℤ) (f : Feed) (w : Watch)
    → Leaves f w f.open_stale_period (check_inactive limits c age f w)
check_inactive-Leaves limits c none f w = (kept f w, refl)
check_inactive-Leaves limits c (some age) f w =
    either (Leaves f w f.open_stale_period) _ _ _ (post_capture-Leaves c.now_monotonic_ns age f w)
      (kept f w, refl)

apply_stale-Leaves :
    (now : ℕ) (age : ℤ) (feed_age : Option ℤ) (n : ℕ) (f : Feed) (w : Watch)
    → Leaves f w f.open_stale_period (record_processor_apply_stale now age feed_age n f w)
unfolding record_processor_apply_stale
apply_stale-Leaves now age feed_age n f w =
    either (Leaves f w f.open_stale_period) f.processor_apply_stale _ _
      (record { state = refl; resets = refl; silences = refl }, refl)
      (record { state = refl; resets = refl; silences = refl }, refl)

clear-Leaves : (f : Feed) (w : Watch) → Leaves f w f.open_stale_period (clear_apply_stale f w)
clear-Leaves f w = (record { state = refl; resets = refl; silences = refl }, refl)

check_apply-Leaves :
    (limits : Limits) (c : Check) (age feed_age : Option ℤ) (f : Feed) (w : Watch)
    → Leaves f w f.open_stale_period (check_apply limits c age feed_age f w)
check_apply-Leaves limits c none feed_age f w = clear-Leaves f w
check_apply-Leaves limits c (some age) feed_age f w =
    either (Leaves f w f.open_stale_period) _ _ _
      (apply_stale-Leaves c.now_monotonic_ns age feed_age c.queue_size f w) (clear-Leaves f w)

close_period-Leaves :
    (now : ℕ) (o : Option StalePeriod) (f : Feed) (w : Watch)
    → f.open_stale_period ≡ o
    → Leaves f w none (close_period now o f w)
close_period-Leaves now none f w e = (kept f w, e)
close_period-Leaves now (some p) f w e =
    (record { state = refl; resets = refl; silences = refl }, refl)

-- A feed that is heard has its period closed, and its book looked at.
heard-Passed :
    (limits : Limits) (c : Check) (age feed_age : Option ℤ) (f : Feed) (w : Watch)
    → let (f', w') = close_stale_period c.now_monotonic_ns f w in
      Passed f w none (without_period (check_apply limits c age feed_age f' w'))
unfolding close_stale_period
heard-Passed limits c age feed_age f w =
    let (f', w') = close_stale_period c.now_monotonic_ns f w in
    let (s, o) = close_period-Leaves c.now_monotonic_ns f.open_stale_period f w refl in
    let (s', o') = check_apply-Leaves limits c age feed_age f' w' in
    record {
      opened = o' ∙ o;
      given = refl;
      spared = record {
        state = s'.state ∙ s.state;
        resets = s'.resets ∙ s.resets;
        silences = s'.silences ∙ s.silences;
      };
    }

open_period-Opened :
    (limits : Limits) (clocks : Clocks) (now : ℕ) (age : ℤ) (f : Feed) (w : Watch)
    → let (f', w', p) = open_period limits clocks now age f w in Opened f w (f', w', some p)
unfolding open_period
open_period-Opened limits clocks now age f w = record {
  period = (open_period limits clocks now age f w).2;
  given = refl;
  opened = refl;
  running = refl;
  reset = mark_not_ready-IsReset _ _ _ _ f.state;
  same_feed = (refl, refl);
  resets = refl;
  silences = refl;
}

extend_period-Extended :
    (age : ℤ) (f : Feed) (p : StalePeriod) (w : Watch)
    → let (f', w', q) = extend_period age f p w in Extended f w p (f', w', some q)
unfolding extend_period
extend_period-Extended age f p w = record {
  period = (extend_period age f p w).2;
  given = refl;
  opened = refl;
  same_start = refl;
  same_feed = (refl, refl);
  spared = record { state = refl; resets = refl; silences = refl };
}

silent-Verdict :
    (limits : Limits) (clocks : Clocks) (c : Check) (age : ℤ) (o : Option StalePeriod) (f : Feed)
    (w : Watch)
    → is_watched c f ≡ true
    → is_feed_stale limits c f ≡ true
    → f.open_stale_period ≡ o
    → let (f', w', p) = open_or_extend limits clocks c.now_monotonic_ns age o f w in
      Verdict limits c f w (f', w', some p)
silent-Verdict limits clocks c age none f w a s e =
    silence_begins a s e (open_period-Opened limits clocks c.now_monotonic_ns age f w)
silent-Verdict limits clocks c age (some p) f w a s e =
    silence_lasts p a s e (extend_period-Extended age f p w)

check_silent-Verdict :
    (limits : Limits) (clocks : Clocks) (c : Check) (age : Option ℤ) (f : Feed) (w : Watch)
    → is_watched c f ≡ true
    → is_feed_stale limits c f ≡ true
    → feed_age_of c.now_monotonic_ns f ≡ age
    → Verdict limits c f w (check_silent limits clocks c age f w)
unfolding record_feed_receive_stale
check_silent-Verdict limits clocks c none f w a s e =
    let never : (is_stale limits.feed_receive_stale_threshold_ns none && (c.queue_size == 0))
        ≡ true =
      subst (λ o. (is_stale limits.feed_receive_stale_threshold_ns o && (c.queue_size == 0)) ≡ true)
        e s in
    cc
check_silent-Verdict limits clocks c (some age) f w a s e =
    silent-Verdict limits clocks c age f.open_stale_period f w a s refl

check_active-Verdict :
    (limits : Limits) (clocks : Clocks) (c : Check) (age : Option ℤ) (f : Feed) (w : Watch)
    → is_watched c f ≡ true
    → Verdict limits c f w (check_active limits clocks c age f w)
unfolding check_active
check_active-Verdict limits clocks c age f w a =
    either_at (Verdict limits c f w) (is_feed_stale limits c f) _ _
      (λ stale.
        check_silent-Verdict limits clocks c (feed_age_of c.now_monotonic_ns f) f w a stale refl)
      (λ fresh. heard a fresh (heard-Passed limits c age (feed_age_of c.now_monotonic_ns f) f w))

inactive : (a r : Bool) → not a ≡ true → (a && not r) ≡ false
inactive true r h = cc
inactive false r h = refl

recovering : (a r : Bool) → r ≡ true → (a && not r) ≡ false
recovering true true h = refl
recovering true false h = cc
recovering false r h = refl

watched : (a r : Bool) → not a ≡ false → r ≡ false → (a && not r) ≡ true
watched true true h k = cc
watched true false h k = refl
watched false r h k = cc

check_recovering-Spared : (c : Check) (f : Feed) (w : Watch) → Spared f w f (check_recovering c w)
check_recovering-Spared c f w =
    either (λ v. Spared f w f v) (ltb 0 c.queue_size) _ _
      (record { state = refl; resets = refl; silences = refl }) (kept f w)

check_aged-Verdict :
    (limits : Limits) (clocks : Clocks) (c : Check) (age : Option ℤ) (f : Feed) (w : Watch)
    → Verdict limits c f w (check_aged limits clocks c age f w)
unfolding check_aged
check_aged-Verdict limits clocks c age f w =
    either_at (Verdict limits c f w) (not c.active) _ _
      (λ off.
        let (s, o) = check_inactive-Leaves limits c age f w in
        idle (inactive c.active f.snapshot_recovery_active off)
          (record { opened = o; given = refl; spared = s }))
      (λ on.
        either_at (Verdict limits c f w) f.snapshot_recovery_active _ _
          (λ busy.
            idle (recovering c.active f.snapshot_recovery_active busy)
              (record { opened = refl; given = refl; spared = check_recovering-Spared c f w }))
          (λ free.
            check_active-Verdict limits clocks c age f w
              (watched c.active f.snapshot_recovery_active on free)))

-- One check of a feed takes the age of its book and then does one of four things. Without a watch (the
-- capture is over, or a snapshot is under way) the open period stays and the state is spared. A
-- silence that begins opens a period and resets the state, which is not ready then, has no snapshot,
-- is in the next generation and takes no delta. A silence that lasts extends the open period and
-- spares the state. Otherwise no period is open and the state is spared.
pub check_feed-Verdict :
    (limits : Limits) (clocks : Clocks) (c : Check) (f : Feed) (w : Watch)
    → let (s, age) = book_age_ns c.now_monotonic_ns f.state in
      Verdict limits c (record f { state = s }) (note_age age w) (check_feed limits clocks c f w)
unfolding check_feed
check_feed-Verdict limits clocks c f w = check_aged-Verdict limits clocks c _ _ _

close_period_only :
    (now : ℕ) (o : Option StalePeriod) (f : Feed) (w : Watch)
    → f.open_stale_period ≡ o
    → let (f', w') = close_period now o f w in
      (f'.open_stale_period ≡ none) × (f'.state ≡ f.state) × (w'.lifecycle ≡ w.lifecycle)
close_period_only now none f w e = (e, refl, refl)
close_period_only now (some p) f w e = (refl, refl, refl)

pub close_stale_period_lem :
    (now : ℕ) (f : Feed) (w : Watch)
    → let (f', w') = close_stale_period now f w in
      (f'.open_stale_period ≡ none) × (f'.state ≡ f.state) × (w'.lifecycle ≡ w.lifecycle)
unfolding close_stale_period
close_stale_period_lem now f w = close_period_only now f.open_stale_period f w refl

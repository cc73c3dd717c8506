-- ===== src/Writer/Order.antt =====
-- Where the records that were accepted are, after any run.
use somethingtrade.Prelude.{
  ℕ, suc, zero, ◌≡◌, refl, ap, sym, ◌∙◌, inl, inr, Bool, true, false, not, ◌||◌, List, [], ◌∷◌,
  ◌++◌, ltb, if◌then◌else◌, length, All, Bool-cases,
}
use mathlib.Core.List.{append_assoc, append-nil}
use somethingtrade.Writer.{
  QueuedJsonlRecord, Phase, not_started, looping, waiting, exited, collecting, flushing,
  JsonlBatchWriter, started, start, put_nowait, enqueue_jsonl, count_at, count_enqueued, is_started,
  is_empty, stop_thread, close, close_joined, all_written, failed_after, flush_batch, get_first,
  get_next, thread_at, thread_step,
}
use somethingtrade.Writer.Run.{
  Event, starts, counts, closes, joins, enqueues, thread_steps, step, run,
}

-- The batch that the thread holds.
abbrev pub held : Phase → List QueuedJsonlRecord
held (collecting batch) = batch
held (flushing batch) = batch
held phase = []

-- The records that are written, held or queued, the oldest first.
abbrev pub on_hand : JsonlBatchWriter → List QueuedJsonlRecord
on_hand w = w.lines ++ (held w.thread ++ w.queue)

-- No batch of the event meets an exception.
abbrev pub IsFine : Event → Type 0
IsFine (thread_steps all_written took) = Unit
IsFine (thread_steps (failed_after n reached error) took) = ⊥
IsFine e = Unit

pub held-started : (p : Phase) → held (started p) ≡ held p
held-started not_started = refl
held-started looping = refl
held-started waiting = refl
held-started exited = refl
held-started (collecting b) = refl
held-started (flushing b) = refl

append_three : (a b c d : List QueuedJsonlRecord) → a ++ (b ++ (c ++ d)) ≡ (a ++ (b ++ c)) ++ d
append_three a b c d = ap (λ l. a ++ l) (sym (append_assoc b c d)) ∙ sym (append_assoc a (b ++ c) d)

get_first-on_hand :
    (q : List QueuedJsonlRecord) (w : JsonlBatchWriter)
    → w.queue ≡ q
    → held w.thread ≡ []
    → on_hand (get_first q w) ≡ on_hand w
get_first-on_hand [] w e h = simp h refl
get_first-on_hand (r ∷ q) w e h = simp (e, h) refl

get_next-on_hand :
    (batch q : List QueuedJsonlRecord) (w : JsonlBatchWriter)
    → w.queue ≡ q
    → held w.thread ≡ batch
    → on_hand (get_next batch q w) ≡ on_hand w
get_next-on_hand batch [] w e h = simp (e, h) refl
get_next-on_hand batch (r ∷ q) w e h =
    simp (e, h) (ap (λ l. w.lines ++ l) (append_assoc batch (r ∷ []) q))

-- A step of the thread moves records along, and loses none.
thread_at-on_hand :
    (p : Phase) (took : ℕ) (w : JsonlBatchWriter)
    → w.thread ≡ p
    → on_hand (thread_at p all_written took w) ≡ on_hand w
unfolding thread_at flush_batch
thread_at-on_hand not_started took w e = refl
thread_at-on_hand exited took w e = refl
thread_at-on_hand looping took w e = elim (Bool-cases (not w.stop || not (is_empty w.queue))) [
  | inl on ↦ simp (on, e) refl
  | inr off ↦ simp (off, e) refl
]
thread_at-on_hand waiting took w e = get_first-on_hand w.queue w refl (simp e refl)
thread_at-on_hand (collecting batch) took w e =
    elim (Bool-cases (ltb (length batch) w.batch_size)) [
      | inl room ↦ simp room (get_next-on_hand batch w.queue w refl (simp e refl))
      | inr full ↦ simp (full, e) refl
    ]
thread_at-on_hand (flushing batch) took w e = simp e (append_assoc w.lines batch w.queue)

put_nowait-on_hand :
    (r : QueuedJsonlRecord) (w : JsonlBatchWriter)
    → let (w', ok) = put_nowait r w in on_hand w' ≡ on_hand w ++ (if ok then r ∷ [] else [])
unfolding put_nowait
put_nowait-on_hand r w = elim (Bool-cases (ltb (length w.queue) w.queue_max_size)) [
  | inl room ↦ simp room (append_three w.lines (held w.thread) w.queue (r ∷ []))
  | inr full ↦ simp full (sym (append-nil (on_hand w)))
]

start-on_hand : (w : JsonlBatchWriter) → on_hand (start w) ≡ on_hand w
unfolding start
start-on_hand w = simp (held-started w.thread) refl

count_at-on_hand : (n : ℕ) (w : JsonlBatchWriter) → on_hand (count_at n w) ≡ on_hand w
count_at-on_hand zero w = refl
count_at-on_hand (suc n) w = refl

stop_thread-on_hand : (b : Bool) (w : JsonlBatchWriter) → on_hand (stop_thread b w) ≡ on_hand w
stop_thread-on_hand false w = refl
stop_thread-on_hand true w = refl

close-on_hand : (w : JsonlBatchWriter) → on_hand (close w) ≡ on_hand w
unfolding close
close-on_hand w = elim (Bool-cases w.closed) [
  | inl old ↦ simp old refl
  | inr new ↦ simp new (stop_thread-on_hand (is_started w.thread) w)
]

-- A step adds what it accepts at the end.
step-on_hand :
    (e : Event) (w : JsonlBatchWriter)
    → IsFine e
    → let (w', accepted) = step e w in on_hand w' ≡ on_hand w ++ accepted
unfolding step enqueue_jsonl count_enqueued thread_step close_joined
step-on_hand starts w h = start-on_hand w ∙ sym (append-nil (on_hand w))
step-on_hand counts w h = count_at-on_hand w.uncounted w ∙ sym (append-nil (on_hand w))
step-on_hand closes w h = close-on_hand w ∙ sym (append-nil (on_hand w))
step-on_hand joins w h = sym (append-nil (on_hand w))
step-on_hand (enqueues end_ns r) w h =
    put_nowait-on_hand r (start w)
    ∙ ap (λ l. l ++ (if (put_nowait r (start w)).1 then r ∷ [] else [])) (start-on_hand w)
step-on_hand (thread_steps all_written took) w h =
    thread_at-on_hand w.thread took w refl ∙ sym (append-nil (on_hand w))
step-on_hand (thread_steps (failed_after n reached error) took) w h = absurd h

-- Over any run in which no batch meets an exception, what is written, held by the thread and queued
-- is, in this order, what was there before followed by what the run accepted: no record is lost, doubled
-- or overtaken.
pub run-on_hand :
    (es : List Event) (w : JsonlBatchWriter)
    → All IsFine es
    → let (w', accepted) = run es w in on_hand w' ≡ on_hand w ++ accepted
unfolding run
run-on_hand [] w h = sym (append-nil (on_hand w))
run-on_hand (e ∷ es) w h =
    let (w1, accepted) = step e w in
    run-on_hand es w1 h.1
    ∙ (ap (λ l. l ++ (run es w1).1) (step-on_hand e w h.0)
        ∙ append_assoc (on_hand w) accepted (run es w1).1)

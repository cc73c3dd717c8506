-- ===== src/Writer/Late.antt =====
-- What happens once the thread of the writer has ended.
use somethingtrade.Prelude.{
  ℕ, suc, zero, ◌≡◌, refl, ap, sym, ◌∙◌, inl, inr, Bool, true, false, List, [], ◌∷◌, ◌++◌, ltb,
  if◌then◌else◌, length, Bool-cases,
}
use mathlib.Core.List.{append_assoc, append-nil}
use somethingtrade.Writer.{
  QueuedJsonlRecord, Phase, exited, JsonlBatchWriter, started, start, put_nowait, enqueue_jsonl,
  count_at, count_enqueued, is_started, stop_thread, close, close_joined, Outcome, thread_at,
  thread_step,
}
use somethingtrade.Writer.Run.{
  Event, starts, counts, closes, joins, enqueues, thread_steps, step, run,
}

-- After an event nothing new is written, and the queue holds what it held and what the event accepted.
record Late (accepted : List QueuedJsonlRecord) (w w' : JsonlBatchWriter) : Type 0 where
  pub thread : w'.thread ≡ exited
  pub lines : w'.lines ≡ w.lines
  pub queue : w'.queue ≡ w.queue ++ accepted

put_nowait-Late :
    (r : QueuedJsonlRecord) (w : JsonlBatchWriter)
    → w.thread ≡ exited
    → let (w', ok) = put_nowait r w in Late (if ok then r ∷ [] else []) w w'
unfolding put_nowait
put_nowait-Late r w e = elim (Bool-cases (ltb (length w.queue) w.queue_max_size)) [
  | inl room ↦ simp room (record { thread = e; lines = refl; queue = refl })
  | inr full ↦ simp full (record { thread = e; lines = refl; queue = sym (append-nil w.queue) })
]

same_Late :
    (w w' : JsonlBatchWriter)
    → w.thread ≡ exited
    → w'.thread ≡ w.thread
    → w'.lines ≡ w.lines
    → w'.queue ≡ w.queue
    → Late [] w w'
same_Late w w' e t l q = record { thread = t ∙ e; lines = l; queue = q ∙ sym (append-nil w.queue) }

started-exited : (p : Phase) → p ≡ exited → started p ≡ p
started-exited p e = rw e refl

count_at-Late : (n : ℕ) (w : JsonlBatchWriter) → w.thread ≡ exited → Late [] w (count_at n w)
count_at-Late zero w e = same_Late w w e refl refl refl
count_at-Late (suc n) w e = same_Late w (count_at (suc n) w) e refl refl refl

stop_thread-Late :
    (b : Bool) (w : JsonlBatchWriter) → w.thread ≡ exited → Late [] w (stop_thread b w)
stop_thread-Late false w e = same_Late w (stop_thread false w) e refl refl refl
stop_thread-Late true w e = same_Late w (stop_thread true w) e refl refl refl

close-Late : (w : JsonlBatchWriter) → w.thread ≡ exited → Late [] w (close w)
unfolding close
close-Late w e = elim (Bool-cases w.closed) [
  | inl old ↦ simp old (same_Late w w e refl refl refl)
  | inr new ↦ simp new (stop_thread-Late (is_started w.thread) w e)
]

thread_at-Late :
    (p : Phase) (o : Outcome) (took : ℕ) (w : JsonlBatchWriter)
    → w.thread ≡ exited
    → p ≡ exited
    → Late [] w (thread_at p o took w)
unfolding thread_at
thread_at-Late p o took w e h = simp h (same_Late w w e refl refl refl)

step-Late :
    (e : Event) (w : JsonlBatchWriter)
    → w.thread ≡ exited
    → let (w', accepted) = step e w in Late accepted w w'
unfolding step start enqueue_jsonl count_enqueued close_joined thread_step
step-Late starts w h = same_Late w _ h (started-exited w.thread h) refl refl
step-Late counts w h = count_at-Late w.uncounted w h
step-Late closes w h = close-Late w h
step-Late joins w h = same_Late w _ h refl refl refl
step-Late (enqueues end_ns r) w h =
    let p = put_nowait-Late r (start w) (started-exited w.thread h ∙ h) in
    record { thread = p.thread; lines = p.lines; queue = p.queue }
step-Late (thread_steps o took) w h = thread_at-Late w.thread o took w h h

-- Once the thread has ended nothing is written any more, by no run of events; what the run accepts
-- stays on the queue.
pub run-late :
    (es : List Event) (w : JsonlBatchWriter)
    → w.thread ≡ exited
    → let (w', accepted) = run es w in (w'.lines ≡ w.lines) × (w'.queue ≡ w.queue ++ accepted)
unfolding run
run-late [] w h = (refl, sym (append-nil w.queue))
run-late (e ∷ es) w h =
    let (w1, accepted) = step e w in
    let p = step-Late e w h in
    let (lines, queue) = run-late es w1 p.thread in
    (
      lines ∙ p.lines,
      queue ∙ (ap (λ l. l ++ (run es w1).1) p.queue ∙ append_assoc w.queue accepted (run es w1).1),
    )

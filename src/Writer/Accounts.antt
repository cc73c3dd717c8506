-- ===== src/Writer/Accounts.antt =====
-- The counters of the writer and the bounds of its queue and its batches, over any run.
use somethingtrade.Prelude.{
  ◌*◌, ℕ, ◌+◌, ◌≤◌, ◌<◌, ◌≡◌, refl, ap, subst, inl, inr, not, ◌||◌, List, [], ◌∷◌, ◌++◌, ltb,
  ltb→lt, length, length-append, length-take, take, Bool, true, false, Bool-cases, arith,
}
use somethingtrade.Writer.{
  started, QueuedJsonlRecord, Phase, not_started, looping, waiting, exited, collecting, flushing,
  JsonlBatchWriter, init, start, enqueue_jsonl, count_enqueued, is_started, is_empty, close,
  close_joined, Outcome, all_written, failed_after, keep_reached, flush_batch, get_first, get_next,
  thread_at, thread_step,
}
use somethingtrade.Writer.Run.{
  Event, starts, counts, closes, joins, enqueues, thread_steps, step, run,
}
use somethingtrade.Writer.Order.{held, held-started}
use somethingtrade.Writer.Bounded.{
  IsBounded, enqueue_calls, put_count, taken_count, Accounts, start-IsBounded, quiet,
  put_nowait-Accounts, count_at-Accounts, alike-IsBounded, stop_thread-Accounts,
}

close-Accounts : (w : JsonlBatchWriter) → IsBounded w → Accounts 0 0 w (close w)
unfolding close
close-Accounts w h = elim (Bool-cases w.closed) [
  | inl old ↦ simp old (quiet w w h refl (omega arith) (omega arith) refl)
  | inr new ↦ simp new (stop_thread-Accounts (is_started w.thread) w h)
]

-- The thread goes on with another batch and queue.
moved :
    (w : JsonlBatchWriter) (p : Phase) (q : List QueuedJsonlRecord)
    → IsBounded w
    → length q ≤ w.queue_max_size
    → length (held p) ≤ w.batch_size
    → length (held p) + length q ≡ length (held w.thread) + length w.queue
    → Accounts 0 0 w (record w { thread = p; queue = q })
moved w p q h a b t =
    quiet w _
      (record {
        some_batch = h.some_batch;
        queue = a;
        batch = b;
        written = h.written;
        lost = h.lost;
        errors = h.errors;
      })
      refl (omega (arith, t)) (omega (arith, t)) refl

get_first-Accounts :
    (q : List QueuedJsonlRecord) (w : JsonlBatchWriter)
    → IsBounded w
    → w.queue ≡ q
    → w.thread ≡ waiting
    → Accounts 0 0 w (get_first q w)
get_first-Accounts [] w h e t =
    moved w looping w.queue h h.queue (omega arith) (simp t (omega arith))
get_first-Accounts (r ∷ q) w h e t =
    let size : length w.queue ≡ length (r ∷ q) = ap length e in
    moved w (collecting (r ∷ [])) q h (omega (arith, size, h.queue)) (omega (arith, h.some_batch))
      (simp t (omega (arith, size)))

get_next-Accounts :
    (batch q : List QueuedJsonlRecord) (w : JsonlBatchWriter)
    → IsBounded w
    → w.queue ≡ q
    → w.thread ≡ collecting batch
    → length batch < w.batch_size
    → Accounts 0 0 w (get_next batch q w)
get_next-Accounts batch [] w h e t l =
    moved w (flushing batch) w.queue h h.queue (omega (arith, l)) (simp t (omega arith))
get_next-Accounts batch (r ∷ q) w h e t l =
    let size : length w.queue ≡ length (r ∷ q) = ap length e in
    moved w (collecting (batch ++ r ∷ [])) q h (omega (arith, size, h.queue))
      (omega (arith, length-append batch (r ∷ []), l))
      (simp t (omega (arith, size, length-append batch (r ∷ []))))

keep_reached-length :
    (reached : List Bool) (batch : List QueuedJsonlRecord)
    → length (keep_reached reached batch) ≤ length batch
keep_reached-length [] batch = omega arith
keep_reached-length (b ∷ bs) [] = omega arith
keep_reached-length (true ∷ bs) (r ∷ batch) = omega (arith, keep_reached-length bs batch)
keep_reached-length (false ∷ bs) (r ∷ batch) = omega (arith, keep_reached-length bs batch)

flush_batch-Accounts :
    (o : Outcome) (took : ℕ) (batch : List QueuedJsonlRecord) (w : JsonlBatchWriter)
    → IsBounded w
    → w.thread ≡ flushing batch
    → Accounts 0 0 w (flush_batch o took batch w)
unfolding flush_batch
flush_batch-Accounts all_written took batch w h e =
    quiet w _
      (record {
        some_batch = h.some_batch;
        queue = h.queue;
        batch = omega arith;
        written = omega (arith, h.written, length-append w.lines batch);
        lost = omega (arith, h.lost, length-append w.lines batch);
        errors = omega (arith, h.errors);
      })
      refl (simp e (omega arith)) (simp e (omega arith)) refl
flush_batch-Accounts (failed_after n reached error) took batch w h e =
    let written = take n batch in
    let lines = keep_reached reached written in
    let both = length-append w.lines lines in
    let taken = length-take n batch in
    let size : length batch ≤ w.batch_size =
      subst (λ p. length (held p) ≤ w.batch_size) e h.batch in
    quiet w _
      (record {
        some_batch = h.some_batch;
        queue = h.queue;
        batch = omega arith;
        written = omega (arith, h.written, both, keep_reached-length reached written);
        lost = omega (arith, h.lost, both, taken, size);
        errors = omega (arith, h.errors);
      })
      refl (simp e (omega (arith, taken))) (simp e (omega (arith, taken, size))) refl

thread_at-Accounts :
    (p : Phase) (o : Outcome) (took : ℕ) (w : JsonlBatchWriter)
    → IsBounded w
    → w.thread ≡ p
    → Accounts 0 0 w (thread_at p o took w)
unfolding thread_at
thread_at-Accounts not_started o took w h e = quiet w w h refl (omega arith) (omega arith) refl
thread_at-Accounts exited o took w h e = quiet w w h refl (omega arith) (omega arith) refl
thread_at-Accounts looping o took w h e = elim (Bool-cases (not w.stop || not (is_empty w.queue))) [
  | inl on ↦ simp on (moved w waiting w.queue h h.queue (omega arith) (simp e (omega arith)))
  | inr off ↦ simp off (moved w exited w.queue h h.queue (omega arith) (simp e (omega arith)))
]
thread_at-Accounts waiting o took w h e = get_first-Accounts w.queue w h refl e
thread_at-Accounts (collecting batch) o took w h e =
    elim (Bool-cases (ltb (length batch) w.batch_size)) [
      | inl room ↦
          simp room
            (get_next-Accounts batch w.queue w h refl e (ltb→lt (length batch) w.batch_size room))
      | inr full ↦ simp full (
          moved w (flushing batch) w.queue h h.queue
            (subst (λ p. length (held p) ≤ w.batch_size) e h.batch) (simp e (omega arith)))
    ]
thread_at-Accounts (flushing batch) o took w h e = flush_batch-Accounts o took batch w h e

start_held : (w : JsonlBatchWriter) → length (held (started w.thread)) ≡ length (held w.thread)
start_held w = ap length (held-started w.thread)

step-Accounts :
    (e : Event) (w : JsonlBatchWriter)
    → IsBounded w
    → let (w', accepted) = step e w in Accounts (enqueue_calls (e ∷ [])) (length accepted) w w'
unfolding step enqueue_jsonl count_enqueued close_joined thread_step start
step-Accounts starts w h =
    quiet w _ (start-IsBounded w h) refl (omega (arith, start_held w)) (omega (arith, start_held w))
      refl
step-Accounts counts w h = count_at-Accounts w.uncounted w h refl
step-Accounts closes w h = close-Accounts w h
step-Accounts joins w h =
    quiet w _ (alike-IsBounded w w.stop w.closed (close_joined w).shutdown_flush_completed h) refl
      (omega arith) (omega arith) refl
step-Accounts (enqueues end_ns r) w h =
    let p = put_nowait-Accounts r (start w) (start-IsBounded w h) in
    record {
      bounded = p.bounded;
      puts = p.puts;
      taken = omega (arith, p.taken, start_held w);
      kept = omega (arith, p.kept, start_held w);
      calls = p.calls;
    }
step-Accounts (thread_steps o took) w h = thread_at-Accounts w.thread o took w h refl

enqueue_calls-cons :
    (e : Event) (es : List Event)
    → enqueue_calls (e ∷ es) ≡ enqueue_calls (e ∷ []) + enqueue_calls es
enqueue_calls-cons starts es = omega arith
enqueue_calls-cons counts es = omega arith
enqueue_calls-cons closes es = omega arith
enqueue_calls-cons joins es = omega arith
enqueue_calls-cons (enqueues end_ns r) es = omega arith
enqueue_calls-cons (thread_steps o took) es = omega arith

run-Accounts :
    (es : List Event) (w : JsonlBatchWriter)
    → IsBounded w
    → let (w', accepted) = run es w in Accounts (enqueue_calls es) (length accepted) w w'
unfolding run
run-Accounts [] w h = quiet w w h refl (omega arith) (omega arith) refl
run-Accounts (e ∷ es) w h =
    let (w1, accepted) = step e w in
    let p = step-Accounts e w h in
    let q = run-Accounts es w1 p.bounded in
    let both = length-append accepted (run es w1).1 in
    record {
      bounded = q.bounded;
      puts = omega (arith, p.puts, q.puts, both);
      taken = omega (arith, p.taken, q.taken, both);
      kept = omega (arith, p.kept, q.kept, both);
      calls = omega (arith, p.calls, q.calls, both, enqueue_calls-cons e es);
    }

-- Over any run of a new writer, with any exceptions, the queue is never longer than its size nor a
-- batch longer than its own; the lines in the files are at most as many as the records counted as
-- written, and those that are missing at most one batch for each error; errors are at most as many
-- as flushes; the records counted as written, held by the thread and queued are together at most
-- the records accepted, and fall short of them by at most one batch for each error; the records
-- enqueued and those not counted yet are the records accepted; and each call of `enqueue_jsonl` is
-- of a record that is accepted or counted as dropped.
pub run-IsBounded :
    (batch_size queue_max_size sample_capacity : ℕ) (es : List Event)
    → let (w, accepted) = run es (init batch_size queue_max_size sample_capacity) in
      IsBounded w
      × (taken_count w ≤ length accepted)
      × (length accepted ≤ taken_count w + w.batch_size * w.error_count)
      × (put_count w ≡ length accepted)
      × (w.dropped_records + length accepted ≡ enqueue_calls es)
unfolding init
run-IsBounded batch_size queue_max_size sample_capacity es =
    let new = init batch_size queue_max_size sample_capacity in
    let start_bounded : IsBounded new = record {
      some_batch = omega arith;
      queue = omega arith;
      batch = omega arith;
      written = omega arith;
      lost = omega arith;
      errors = omega arith;
    } in
    let p = run-Accounts es new start_bounded in
    (
      p.bounded,
      omega (arith, p.taken),
      omega (arith, p.kept),
      omega (arith, p.puts),
      omega (arith, p.calls),
    )

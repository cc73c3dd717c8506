-- ===== src/Writer/Bounded.antt =====
-- The counters and bounds of the writer, and what single steps of its callers do to them.
use somethingtrade.Prelude.{
  ℕ, suc, zero, ◌+◌, ◌*◌, ◌≤◌, ◌≡◌, refl, inl, inr, Bool, true, false, List, [], ◌∷◌, ltb, ltb→lt,
  if◌then◌else◌, length, length-append, Bool-cases, arith,
}
use somethingtrade.Writer.{
  QueuedJsonlRecord, Phase, not_started, looping, waiting, exited, collecting, flushing,
  JsonlBatchWriter, started, start, put_nowait, count_at, stop_thread,
}
use somethingtrade.Writer.Run.{Event, starts, counts, closes, joins, enqueues, thread_steps}
use somethingtrade.Writer.Order.{held}

-- Neither the queue nor a batch is over its size, each line is counted as written, each error takes
-- the lines of at most one batch, and each error is of a flush.
pub record IsBounded (w : JsonlBatchWriter) : Type 0 where
  pub some_batch : 1 ≤ w.batch_size
  pub queue : length w.queue ≤ w.queue_max_size
  pub batch : length (held w.thread) ≤ w.batch_size
  pub written : length w.lines ≤ w.records_written
  pub lost : w.records_written ≤ length w.lines + w.batch_size * w.error_count
  pub errors : w.error_count ≤ w.flush_count

-- The calls of `enqueue_jsonl` of a run.
abbrev pub enqueue_calls : List Event → ℕ
enqueue_calls [] = 0
enqueue_calls (enqueues end_ns r ∷ es) = 1 + enqueue_calls es
enqueue_calls (starts ∷ es) = enqueue_calls es
enqueue_calls (counts ∷ es) = enqueue_calls es
enqueue_calls (closes ∷ es) = enqueue_calls es
enqueue_calls (joins ∷ es) = enqueue_calls es
enqueue_calls (thread_steps o took ∷ es) = enqueue_calls es

-- The records that were put, counted or not yet.
abbrev pub put_count : JsonlBatchWriter → ℕ
put_count w = w.records_enqueued + w.uncounted

-- The records that are counted as written, held by the thread, or queued.
abbrev pub taken_count : JsonlBatchWriter → ℕ
taken_count w = w.records_written + length (held w.thread) + length w.queue

-- Those and a whole batch for each error.
abbrev pub with_lost : JsonlBatchWriter → ℕ
with_lost w = taken_count w + w.batch_size * w.error_count

-- A step that gives so many calls and accepted records more.
pub record Accounts (made accepted : ℕ) (w w' : JsonlBatchWriter) : Type 0 where
  pub bounded : IsBounded w'
  pub puts : put_count w' ≡ put_count w + accepted
  pub taken : taken_count w' ≤ taken_count w + accepted
  pub kept : with_lost w + accepted ≤ with_lost w'
  pub calls : w'.dropped_records + accepted ≡ w.dropped_records + made

pub held-started-length : (p : Phase) (n : ℕ) → length (held p) ≤ n → length (held (started p)) ≤ n
held-started-length not_started n h = h
held-started-length looping n h = h
held-started-length waiting n h = h
held-started-length exited n h = h
held-started-length (collecting b) n h = h
held-started-length (flushing b) n h = h

pub start-IsBounded : (w : JsonlBatchWriter) → IsBounded w → IsBounded (start w)
unfolding start
start-IsBounded w h = record {
  some_batch = h.some_batch;
  queue = h.queue;
  batch = held-started-length w.thread w.batch_size h.batch;
  written = h.written;
  lost = h.lost;
  errors = h.errors;
}

-- A step that leaves the counters alone.
pub quiet :
    (w w' : JsonlBatchWriter)
    → IsBounded w'
    → put_count w' ≡ put_count w
    → taken_count w' ≤ taken_count w
    → with_lost w ≤ with_lost w'
    → w'.dropped_records ≡ w.dropped_records
    → Accounts 0 0 w w'
quiet w w' b p t k d = record {
  bounded = b;
  puts = omega (arith, p);
  taken = omega (arith, t);
  kept = omega (arith, k);
  calls = omega (arith, d);
}

pub put_nowait-Accounts :
    (r : QueuedJsonlRecord) (w : JsonlBatchWriter)
    → IsBounded w
    → let (w', ok) = put_nowait r w in Accounts 1 (length (if ok then r ∷ [] else [])) w w'
unfolding put_nowait
put_nowait-Accounts r w h = elim (Bool-cases (ltb (length w.queue) w.queue_max_size)) [
  | inl room ↦ simp room (record {
    bounded = record {
      some_batch = h.some_batch;
      queue =
          omega
            (arith, length-append w.queue (r ∷ []), ltb→lt (length w.queue) w.queue_max_size room);
      batch = h.batch;
      written = h.written;
      lost = h.lost;
      errors = h.errors;
    };
    puts = omega arith;
    taken = omega (arith, length-append w.queue (r ∷ []));
    kept = omega (arith, length-append w.queue (r ∷ []));
    calls = omega arith;
  })
  | inr full ↦ simp full (record {
    bounded = record {
      some_batch = h.some_batch;
      queue = h.queue;
      batch = h.batch;
      written = h.written;
      lost = h.lost;
      errors = h.errors;
    };
    puts = omega arith;
    taken = omega (arith, length-append w.queue (r ∷ []));
    kept = omega (arith, length-append w.queue (r ∷ []));
    calls = omega arith;
  })
]

pub count_at-Accounts :
    (n : ℕ) (w : JsonlBatchWriter) → IsBounded w → w.uncounted ≡ n → Accounts 0 0 w (count_at n w)
count_at-Accounts zero w h e = quiet w w h refl (omega arith) (omega arith) refl
count_at-Accounts (suc n) w h e = record {
  bounded = record {
    some_batch = h.some_batch;
    queue = h.queue;
    batch = h.batch;
    written = h.written;
    lost = h.lost;
    errors = h.errors;
  };
  puts = omega (arith, e);
  taken = omega arith;
  kept = omega arith;
  calls = omega arith;
}

-- A writer whose queue, thread, lines and counters are as before is bounded as before.
pub alike-IsBounded :
    (w : JsonlBatchWriter) (stop closed completed : Bool)
    → IsBounded w
    → IsBounded (record w { stop = stop; closed = closed; shutdown_flush_completed = completed })
alike-IsBounded w stop closed completed h = record {
  some_batch = h.some_batch;
  queue = h.queue;
  batch = h.batch;
  written = h.written;
  lost = h.lost;
  errors = h.errors;
}

pub stop_thread-Accounts :
    (b : Bool) (w : JsonlBatchWriter) → IsBounded w → Accounts 0 0 w (stop_thread b w)
stop_thread-Accounts false w h =
    quiet w _ (alike-IsBounded w w.stop true true h) refl (omega arith) (omega arith) refl
stop_thread-Accounts true w h =
    quiet w _ (alike-IsBounded w true true w.shutdown_flush_completed h) refl (omega arith)
      (omega arith) refl

-- ===== src/Writer.antt =====
-- bot/app/marketdata/batch_writer.py: the writer that takes records of rows on a bounded queue and
-- writes them in batches on a thread of its own.
--
-- A step is what happens between two points where threads can take turns: the queue and the
-- counters are each behind a lock, so `enqueue_jsonl` is two steps, and the thread takes one step for
-- each test of its loop, each call of the queue, and each batch. What the files and the clocks do is
-- an argument of a step. A line is kept as the record that it is made from; durations are
-- nanoseconds. What an exception leaves of a line is the whole line or nothing.
pub mod Rows
pub mod Run
pub mod Order
pub mod Drain
pub mod Late
pub mod Bounded
pub mod Accounts
mod Tests
use somethingtrade.Prelude.{
  ℕ, zero, suc, ◌+◌, ◌-◌, max, min, Bool, true, false, not, ◌&&◌, ◌||◌, String, Option, none, some,
  List, [], ◌∷◌, ◌++◌, ltb, if◌then◌else◌, length, take,
}
use somethingtrade.Prelude.Int.{ℤ}
use somethingtrade.Prelude.Texts.{Texts}
use somethingtrade.Queue.{push}

-- A value of a row's `stages` or `metrics`: a whole number, a duration that is written in
-- milliseconds, or anything else, as text.
pub data Value : Type 0 where
  number : ℕ → Value
  duration : ℤ → Value
  other_value : String → Value

-- The row of a record; `none` where the entry is missing or no mapping.
pub record Row : Type 0 where
  pub stages : Option (Texts Value)
  pub metrics : Option (Texts Value)
  pub rest : String

pub record QueuedJsonlRecord : Type 0 where
  pub path : String
  pub row : Row
  pub writer_enqueue_monotonic_ns : ℕ

pub record WriterEnqueueResult : Type 0 where
  pub writer_enqueue_start_monotonic_ns : ℕ
  pub writer_enqueue_end_monotonic_ns : ℕ
  pub enqueued : Bool
  pub dropped : Bool
  pub file_write_start_monotonic_ns : Option ℕ
  pub file_write_end_monotonic_ns : Option ℕ

-- Where the thread is: before `start`, at the test of its loop, at the first record of a batch, with a
-- batch that may grow, with a batch to flush, or at its end.
pub data Phase : Type 0 where
  not_started looping waiting exited : Phase
  collecting flushing : List QueuedJsonlRecord → Phase

-- `JsonlBatchWriter`, the lines that it has written, and how many records were put that are not
-- counted yet.
pub record JsonlBatchWriter : Type 0 where
  pub batch_size : ℕ
  pub queue_max_size : ℕ
  pub sample_capacity : ℕ
  pub queue : List QueuedJsonlRecord
  pub stop : Bool
  pub thread : Phase
  pub closed : Bool
  pub shutdown_flush_completed : Bool
  pub dropped_records : ℕ
  pub error_count : ℕ
  pub records_enqueued : ℕ
  pub records_written : ℕ
  pub flush_count : ℕ
  pub flush_durations : List ℕ
  pub queue_depth_samples : List ℕ
  pub last_error : Option String
  pub uncounted : ℕ
  pub lines : List QueuedJsonlRecord

unfoldable pub init : ℕ → ℕ → ℕ → JsonlBatchWriter
init batch_size queue_max_size sample_capacity = record {
  batch_size = max 1 batch_size;
  queue_max_size = max 1 queue_max_size;
  sample_capacity = sample_capacity;
  queue = [];
  stop = false;
  thread = not_started;
  closed = false;
  shutdown_flush_completed = false;
  dropped_records = 0;
  error_count = 0;
  records_enqueued = 0;
  records_written = 0;
  flush_count = 0;
  flush_durations = [];
  queue_depth_samples = [];
  last_error = none;
  uncounted = 0;
  lines = [];
}

-- `self._started`
abbrev pub is_started : Phase → Bool
is_started not_started = false
is_started phase = true

abbrev pub is_exited : Phase → Bool
is_exited exited = true
is_exited phase = false

abbrev pub started : Phase → Phase
started not_started = looping
started phase = phase

unfoldable pub start : JsonlBatchWriter → JsonlBatchWriter
start w = record w { thread = started w.thread }

abbrev put_result : ℕ → ℕ → Bool → WriterEnqueueResult
put_result start_ns end_ns enqueued = record {
  writer_enqueue_start_monotonic_ns = start_ns;
  writer_enqueue_end_monotonic_ns = end_ns;
  enqueued = enqueued;
  dropped = not enqueued;
  file_write_start_monotonic_ns = none;
  file_write_end_monotonic_ns = none;
}

-- `put_nowait`: the queue takes the record if it has room.
unfoldable pub put_nowait : QueuedJsonlRecord → JsonlBatchWriter → JsonlBatchWriter × Bool
put_nowait r w =
    if ltb (length w.queue) w.queue_max_size
    then (record w { queue = w.queue ++ r ∷ []; uncounted = w.uncounted + 1 }, true)
    else (
      record w {
        dropped_records = w.dropped_records + 1;
        queue_depth_samples = push w.sample_capacity w.queue_max_size w.queue_depth_samples;
      },
      false,
    )

-- `enqueue_jsonl`, to where it has put the record, or has counted that it did not.
unfoldable pub enqueue_jsonl :
    ℕ → QueuedJsonlRecord → JsonlBatchWriter → JsonlBatchWriter × WriterEnqueueResult
enqueue_jsonl end_ns r w =
    let (w', enqueued) = put_nowait r (start w) in
    (w', put_result r.writer_enqueue_monotonic_ns end_ns enqueued)

abbrev count_at : ℕ → JsonlBatchWriter → JsonlBatchWriter
count_at zero w = w
count_at (suc n) w = record w {
  uncounted = n;
  records_enqueued = w.records_enqueued + 1;
  queue_depth_samples = push w.sample_capacity (length w.queue) w.queue_depth_samples;
}

-- The rest of `enqueue_jsonl`, where a record that was put is counted.
unfoldable pub count_enqueued : JsonlBatchWriter → JsonlBatchWriter
count_enqueued w = count_at w.uncounted w

abbrev stop_thread : Bool → JsonlBatchWriter → JsonlBatchWriter
stop_thread false w = record w { closed = true; shutdown_flush_completed = true }
stop_thread true w = record w { closed = true; stop = true }

-- `close`, to where it waits for the thread.
unfoldable pub close : JsonlBatchWriter → JsonlBatchWriter
close w = if w.closed then w else stop_thread (is_started w.thread) w

abbrev pub is_empty : List QueuedJsonlRecord → Bool
is_empty [] = true
is_empty (r ∷ q) = false

-- The rest of `close`, after the thread has ended or the time is up.
unfoldable pub close_joined : JsonlBatchWriter → JsonlBatchWriter
close_joined w = record w { shutdown_flush_completed = is_exited w.thread && is_empty w.queue }

-- What becomes of a batch: its lines are written, or an exception comes after so many calls of
-- `write`. Those calls fill the buffers of the files, and the exception may be that of a later
-- `write`, `flush` or `close`: the list says which of the lines have come to a file.
pub data Outcome : Type 0 where
  all_written : Outcome
  failed_after : ℕ → List Bool → String → Outcome

-- The records that `write` was called for.
abbrev pub written_of : Outcome → List QueuedJsonlRecord → List QueuedJsonlRecord
written_of all_written batch = batch
written_of (failed_after n reached error) batch = take n batch

abbrev pub keep_reached : List Bool → List QueuedJsonlRecord → List QueuedJsonlRecord
keep_reached [] batch = []
keep_reached (b ∷ bs) [] = []
keep_reached (b ∷ bs) (r ∷ batch) = if b then r ∷ keep_reached bs batch else keep_reached bs batch

-- The records whose lines have come to a file.
abbrev pub lines_of : Outcome → List QueuedJsonlRecord → List QueuedJsonlRecord
lines_of all_written batch = batch
lines_of (failed_after n reached error) batch = keep_reached reached (take n batch)

abbrev pub note_error : Outcome → JsonlBatchWriter → JsonlBatchWriter
note_error all_written w = w
note_error (failed_after n reached error) w = record w {
  error_count = w.error_count + 1;
  last_error = some error;
}

unfoldable pub flush_batch :
    Outcome → ℕ → List QueuedJsonlRecord → JsonlBatchWriter → JsonlBatchWriter
flush_batch outcome took batch w =
    let written = length (written_of outcome batch) in
    let w' = note_error outcome w in
    record w' {
      lines = w'.lines ++ lines_of outcome batch;
      records_written = w'.records_written + written;
      flush_count = w'.flush_count + 1;
      flush_durations = push w'.sample_capacity took w'.flush_durations;
      thread = looping;
    }

-- The first `get`, on a queue that may stay empty until its timeout.
abbrev pub get_first : List QueuedJsonlRecord → JsonlBatchWriter → JsonlBatchWriter
get_first [] w = record w { thread = looping }
get_first (r ∷ q) w = record w { thread = collecting (r ∷ []); queue = q }

abbrev pub get_next :
    List QueuedJsonlRecord → List QueuedJsonlRecord → JsonlBatchWriter → JsonlBatchWriter
get_next batch [] w = record w { thread = flushing batch }
get_next batch (r ∷ q) w = record w { thread = collecting (batch ++ r ∷ []); queue = q }

-- One step of `_run` and what it calls, from where the thread is.
unfoldable pub thread_at : Phase → Outcome → ℕ → JsonlBatchWriter → JsonlBatchWriter
thread_at not_started outcome took w = w
thread_at looping outcome took w =
    if not w.stop || not (is_empty w.queue)
    then record w { thread = waiting }
    else record w { thread = exited }
thread_at waiting outcome took w = get_first w.queue w
thread_at (collecting batch) outcome took w =
    if ltb (length batch) w.batch_size
    then get_next batch w.queue w
    else record w { thread = flushing batch }
thread_at (flushing batch) outcome took w = flush_batch outcome took batch w
thread_at exited outcome took w = w

unfoldable pub thread_step : Outcome → ℕ → JsonlBatchWriter → JsonlBatchWriter
thread_step outcome took w = thread_at w.thread outcome took w

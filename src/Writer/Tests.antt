-- ===== src/Writer/Tests.antt =====
-- A writer of batches of two with a queue of two: it takes two records, drops a third, and is closed.
use somethingtrade.Prelude.{
  ◌*◌, ℕ, ◌+◌, ◌≡◌, ◌≤◌, none, refl, true, some, List, [], ◌∷◌, ◌++◌, arith, length,
}
use somethingtrade.Prelude.Int.{pos, sub_ℕ}
use somethingtrade.Prelude.Texts.{Texts, find}
use somethingtrade.Writer.{
  Value, number, duration, Row, QueuedJsonlRecord, JsonlBatchWriter, init, exited, start,
  enqueue_jsonl, put_nowait, count_enqueued, close, close_joined, Outcome, all_written,
  failed_after, flush_batch, thread_at, thread_step,
}
use somethingtrade.Writer.Rows.{
  annotate_writer_enqueue, prepared, find_in, prepared-annotate_writer_enqueue,
}
use somethingtrade.Writer.Run.{Event, counts, closes, joins, enqueues, thread_steps, step, run}
use somethingtrade.Writer.Order.{on_hand, run-on_hand}
use somethingtrade.Writer.Drain.{run_thread, run_thread-exited, run-completed}
use somethingtrade.Writer.Late.{run-late}
use somethingtrade.Writer.Bounded.{IsBounded, put_count, taken_count, enqueue_calls}
use somethingtrade.Writer.Accounts.{run-IsBounded}

abbrev row : Row
row = record { stages = some []; metrics = some []; rest = "{}" }

abbrev sent : Texts Value
sent = ("sent", number 2) ∷ []

abbrev at_time : ℕ → QueuedJsonlRecord
at_time n = record { path = "out.jsonl"; row = row; writer_enqueue_monotonic_ns = n }

abbrev writer : JsonlBatchWriter
writer = init 2 2 10

abbrev enqueued : List Event
enqueued = enqueues 2 (at_time 1) ∷ enqueues 4 (at_time 3) ∷ counts ∷ enqueues 6 (at_time 5) ∷ []

abbrev fine_step : Outcome × ℕ
fine_step = (all_written, 1)

abbrev all_steps : List (Outcome × ℕ)
all_steps =
    fine_step
    ∷ fine_step
    ∷ (failed_after 2 (true ∷ []) "disk full", 1)
    ∷ fine_step
    ∷ fine_step
    ∷ fine_step
    ∷ fine_step
    ∷ fine_step
    ∷ fine_step
    ∷ []

abbrev thread_event : Event
thread_event = thread_steps all_written 1

-- The thread takes the batch, is told to stop, writes, and ends.
abbrev session : List Event
session =
    enqueued
    ++ thread_event ∷ thread_event ∷ closes ∷ thread_event ∷ thread_event ∷ thread_event
      ∷ thread_event ∷ joins ∷ []

run-on_hand_example :
    let (w', accepted) = run session writer in on_hand w' ≡ on_hand writer ++ accepted
run-on_hand_example =
    run-on_hand session writer
      (tt, (tt, (tt, (tt, (tt, (tt, (tt, (tt, (tt, (tt, (tt, (tt, tt))))))))))))

-- The disk is full when the two buffered lines are flushed, and only the first is in the file: both
-- count as written.
abbrev full_disk : List Event
full_disk =
    enqueued
    ++ thread_event
      ∷ thread_event
      ∷ thread_event
      ∷ thread_event
      ∷ thread_steps (failed_after 2 (true ∷ []) "disk full") 1
      ∷ []

abbrev lost_line : JsonlBatchWriter × List QueuedJsonlRecord
lost_line = run full_disk writer

run-IsBounded_example :
    let (w, accepted) = run full_disk (init 2 2 10) in
    IsBounded w
    × (taken_count w ≤ length accepted)
    × (length accepted ≤ taken_count w + w.batch_size * w.error_count)
    × (put_count w ≡ length accepted)
    × (w.dropped_records + length accepted ≡ enqueue_calls full_disk)
run-IsBounded_example = run-IsBounded 2 2 10 full_disk

lost_line-counts :
    (length lost_line.0.lines ≡ 1)
    × (lost_line.0.records_written ≡ 2)
    × (lost_line.0.error_count ≡ 1)
unfolding run step init start enqueue_jsonl put_nowait count_enqueued thread_step thread_at
    flush_batch
lost_line-counts = (refl, refl, refl)

session-completed : (close_joined (run session (init 2 2 10)).0).shutdown_flush_completed ≡ true
unfolding run step init start enqueue_jsonl put_nowait count_enqueued close close_joined thread_step
    thread_at flush_batch
session-completed = refl

run-completed_example : (run session (init 2 2 10)).0.lines ≡ (run session (init 2 2 10)).1
run-completed_example =
    run-completed 2 2 10 session
      (tt, (tt, (tt, (tt, (tt, (tt, (tt, (tt, (tt, (tt, (tt, (tt, tt)))))))))))) session-completed

abbrev stopping : JsonlBatchWriter
stopping = close (run enqueued writer).0

run_thread-exited_example :
    let w' = run_thread all_steps stopping in (w'.thread ≡ exited) × (w'.queue ≡ [])
unfolding run step init start enqueue_jsonl put_nowait count_enqueued close
run_thread-exited_example = run_thread-exited all_steps stopping refl tt (omega arith)

abbrev ended : JsonlBatchWriter
ended = run_thread all_steps stopping

-- A record that comes after the end is accepted and never written.
run-late_example :
    let (w', accepted) = run enqueued ended in
    (w'.lines ≡ ended.lines) × (w'.queue ≡ ended.queue ++ accepted)
run-late_example = run-late enqueued ended run_thread-exited_example.0

prepared-annotate_writer_enqueue_example :
    let row' = prepared 9 (annotate_writer_enqueue 4 (record row { stages = some sent })) in
    ((find_in row'.stages "writer_enqueue_monotonic_ns" ≡ some (number 4))
      × (find_in row'.stages "file_write_start_monotonic_ns" ≡ some (number 9))
      × (find_in row'.stages "file_write_end_monotonic_ns" ≡ some (number 9)))
    × ((find_in row'.metrics "writer_wait_ms" ≡ some (duration (sub_ℕ 9 4)))
        × (find_in row'.metrics "file_write_duration_ms" ≡ some (duration (pos 0))))
    × ((find_in row'.stages "sent" ≡ find sent "sent") × (find_in row'.metrics "sent" ≡ none))
prepared-annotate_writer_enqueue_example =
    prepared-annotate_writer_enqueue 4 9 sent [] "{}" "sent"
      (refl, (refl, (refl, (refl, (refl, tt)))))

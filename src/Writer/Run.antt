-- ===== src/Writer/Run.antt =====
-- Runs of the writer: any order of the steps of its callers and of its thread.
use somethingtrade.Prelude.{ℕ, List, [], ◌∷◌, ◌++◌, if◌then◌else◌}
use somethingtrade.Writer.{
  QueuedJsonlRecord, WriterEnqueueResult, JsonlBatchWriter, start, enqueue_jsonl, count_enqueued,
  close, close_joined, Outcome, thread_step,
}

pub data Event : Type 0 where
  starts counts closes joins : Event
  enqueues : ℕ → QueuedJsonlRecord → Event
  thread_steps : Outcome → ℕ → Event

-- The record, if the call said that it was enqueued.
abbrev pub accepted_of : QueuedJsonlRecord → WriterEnqueueResult → List QueuedJsonlRecord
accepted_of r result = if result.enqueued then r ∷ [] else []

-- The writer after a step, and the records that the step accepted.
unfoldable pub step : Event → JsonlBatchWriter → JsonlBatchWriter × List QueuedJsonlRecord
step starts w = (start w, [])
step counts w = (count_enqueued w, [])
step closes w = (close w, [])
step joins w = (close_joined w, [])
step (enqueues end_ns r) w =
    let (w', result) = enqueue_jsonl end_ns r w in (w', accepted_of r result)
step (thread_steps outcome duration) w = (thread_step outcome duration w, [])

-- The writer after a run, and the records that it accepted, in their order.
unfoldable pub run : List Event → JsonlBatchWriter → JsonlBatchWriter × List QueuedJsonlRecord
run [] w = (w, [])
run (e ∷ es) w =
    let (w1, accepted) = step e w in let (w2, later) = run es w1 in (w2, accepted ++ later)

-- ===== src/Writer/Rows.antt =====
-- The times that the writer notes in a row: `_annotate_writer_enqueue`,
-- `_with_file_write_timestamps` and `write_jsonl_sync` of bot/app/marketdata/batch_writer.py.
use somethingtrade.Prelude.{
  arith, ap, str_eq, List, [], ◌∷◌, All, ℕ, ◌≡◌, refl, ◌∙◌, true, false, String, Option, none, some,
}
use somethingtrade.Prelude.Int.{pos, sub_ℕ}
use somethingtrade.Prelude.Texts.{Texts, find, set, find-set, find-set_other}
use somethingtrade.Writer.{Value, number, duration, Row, WriterEnqueueResult}

abbrev set_in : Option (Texts Value) → String → Value → Option (Texts Value)
set_in none k v = none
set_in (some d) k v = some (set d k v)

abbrev pub find_in : Option (Texts Value) → String → Option Value
find_in none k = none
find_in (some d) k = find d k

unfoldable pub annotate_writer_enqueue : ℕ → Row → Row
annotate_writer_enqueue enqueue_ns row = record row {
  stages = set_in row.stages "writer_enqueue_monotonic_ns" (number enqueue_ns);
}

-- The wait is noted where the time of the enqueue is a whole number.
abbrev note_wait : Option Value → ℕ → Option (Texts Value) → Option (Texts Value)
note_wait (some (number enqueue_ns)) start metrics =
    set_in metrics "writer_wait_ms" (duration (sub_ℕ start enqueue_ns))
note_wait value start metrics = metrics

unfoldable pub with_file_write_timestamps : ℕ → ℕ → Row → Row
with_file_write_timestamps start end row =
    let stages =
      set_in (set_in row.stages "file_write_start_monotonic_ns" (number start))
        "file_write_end_monotonic_ns" (number end) in
    record row {
      stages = stages;
      metrics =
          note_wait (find_in stages "writer_enqueue_monotonic_ns") start
            (set_in row.metrics "file_write_duration_ms" (duration (sub_ℕ end start)));
    }

-- The row as `_flush_batch` and `write_jsonl_sync` write it: one reading of the clock is passed for
-- both times.
unfoldable pub prepared : ℕ → Row → Row
prepared now row = with_file_write_timestamps now now row

-- `write_jsonl_sync`: the row that is written at once, and what is returned.
unfoldable pub write_jsonl_sync : ℕ → ℕ → Row → Row × WriterEnqueueResult
write_jsonl_sync start end row = (
  prepared start row,
  record {
    writer_enqueue_start_monotonic_ns = start;
    writer_enqueue_end_monotonic_ns = start;
    enqueued = true;
    dropped = false;
    file_write_start_monotonic_ns = some start;
    file_write_end_monotonic_ns = some end;
  },
)

-- The names of the values that the writer notes.
abbrev pub noted : List String
noted =
    "writer_enqueue_monotonic_ns" ∷ "file_write_start_monotonic_ns" ∷ "file_write_end_monotonic_ns"
    ∷ "file_write_duration_ms" ∷ "writer_wait_ms" ∷ []

-- A row whose stages and metrics are mappings, annotated at the enqueue and then prepared for the
-- write, has the time of the enqueue in its stages, and the time of the write there as start and as end
-- alike; its metrics have the signed difference of the two times as the wait, and zero, whatever the
-- write takes, as the duration of the write. A value of another name is as before in both.
pub prepared-annotate_writer_enqueue :
    (enqueue_ns now : ℕ) (stages metrics : Texts Value) (rest name : String)
    → All (λ n. str_eq n name ≡ false) noted
    → let row = prepared now (
        annotate_writer_enqueue enqueue_ns
          (record { stages = some stages; metrics = some metrics; rest = rest })) in
      ((find_in row.stages "writer_enqueue_monotonic_ns" ≡ some (number enqueue_ns))
        × (find_in row.stages "file_write_start_monotonic_ns" ≡ some (number now))
        × (find_in row.stages "file_write_end_monotonic_ns" ≡ some (number now)))
      × ((find_in row.metrics "writer_wait_ms" ≡ some (duration (sub_ℕ now enqueue_ns)))
          × (find_in row.metrics "file_write_duration_ms" ≡ some (duration (pos 0))))
      × ((find_in row.stages name ≡ find stages name)
          × (find_in row.metrics name ≡ find metrics name))
unfolding prepared with_file_write_timestamps annotate_writer_enqueue
prepared-annotate_writer_enqueue enqueue_ns now stages metrics rest name other =
    let enqueue_key : String = "writer_enqueue_monotonic_ns" in
    let start_key : String = "file_write_start_monotonic_ns" in
    let end_key : String = "file_write_end_monotonic_ns" in
    let duration_key : String = "file_write_duration_ms" in
    let s1 = set stages enqueue_key (number enqueue_ns) in
    let s2 = set s1 start_key (number now) in
    let s3 = set s2 end_key (number now) in
    let zero_time : sub_ℕ now now ≡ pos 0 = ground arith in
    let m1 = set metrics duration_key (duration (sub_ℕ now now)) in
    let wait = duration (sub_ℕ now enqueue_ns) in
    let kept : find s3 enqueue_key ≡ some (number enqueue_ns) =
      find-set_other s2 end_key enqueue_key (number now) refl
      ∙ (find-set_other s1 start_key enqueue_key (number now) refl
          ∙ find-set stages enqueue_key (number enqueue_ns)) in
    let first : find s3 start_key ≡ some (number now) =
      find-set_other s2 end_key start_key (number now) refl ∙ find-set s1 start_key (number now) in
    let same_stage : find s3 name ≡ find stages name =
      find-set_other s2 end_key name (number now) other.1.1.0
      ∙ (find-set_other s1 start_key name (number now) other.1.0
          ∙ find-set_other stages enqueue_key name (number enqueue_ns) other.0) in
    let same_metric : find (set m1 "writer_wait_ms" wait) name ≡ find metrics name =
      find-set_other m1 "writer_wait_ms" name wait other.1.1.1.1.0
      ∙ find-set_other metrics duration_key name (duration (sub_ℕ now now)) other.1.1.1.0 in
    (
      (kept, first, find-set s2 end_key (number now)),
      (
        simp kept (find-set m1 "writer_wait_ms" wait),
        simp kept (
            find-set_other m1 "writer_wait_ms" duration_key wait refl
            ∙ find-set metrics duration_key (duration (sub_ℕ now now))
            ∙ ap (λ d. some (duration d)) zero_time),
      ),
      (same_stage, simp kept same_metric),
    )

-- ===== src/Writer/Drain.antt =====
-- What the thread does once it is told to stop: it empties the queue and ends.
use somethingtrade.Prelude.{
  ℕ, ◌+◌, ◌-◌, ◌*◌, ◌≤◌, ◌≡◌, refl, ap, sym, ◌∙◌, inl, inr, true, ◌&&◌, List, [], ◌∷◌, ◌++◌, ltb,
  length, All, Bool-cases, arith,
}
use mathlib.Core.List.{append-nil}
use somethingtrade.Writer.{
  QueuedJsonlRecord, Phase, not_started, looping, waiting, exited, collecting, flushing,
  JsonlBatchWriter, init, is_exited, is_empty, close_joined, Outcome, all_written, failed_after,
  flush_batch, get_first, get_next, thread_at, thread_step,
}
use somethingtrade.Writer.Run.{Event, run}
use somethingtrade.Writer.Order.{held, IsFine, run-on_hand}

-- Steps of the thread alone, each with the outcome and the duration of its batch, if it flushes one.
unfoldable pub run_thread : List (Outcome × ℕ) → JsonlBatchWriter → JsonlBatchWriter
run_thread [] w = w
run_thread ((outcome, took) ∷ l) w = run_thread l (thread_step outcome took w)

-- A bound on the steps that are left: four for a record that is queued, and one to three for a batch.
abbrev pub work : Phase → List QueuedJsonlRecord → ℕ
work not_started q = 0
work exited q = 0
work looping q = 4 * length q + 1
work waiting [] = 2
work waiting (r ∷ q) = 4 * length q + 4
work (collecting batch) q = 4 * length q + 3
work (flushing batch) q = 4 * length q + 2

-- The thread runs, or has ended with an empty queue.
abbrev pub IsDraining : Phase → List QueuedJsonlRecord → Type 0
IsDraining not_started q = ⊥
IsDraining exited q = q ≡ []
IsDraining phase q = Unit

-- One step of a thread that is told to stop: it still drains, and less is left to do.
record Progress (w w' : JsonlBatchWriter) : Type 0 where
  pub stop : w'.stop ≡ w.stop
  pub draining : IsDraining w'.thread w'.queue
  pub less : work w'.thread w'.queue ≤ work w.thread w.queue - 1

empty-nil : (q : List QueuedJsonlRecord) → is_empty q ≡ true → q ≡ []
empty-nil [] h = refl
empty-nil (r ∷ q) h = cc

looping-Progress :
    (q : List QueuedJsonlRecord) (o : Outcome) (took : ℕ) (w : JsonlBatchWriter)
    → w.thread ≡ looping
    → w.queue ≡ q
    → w.stop ≡ true
    → Progress w (thread_at looping o took w)
unfolding thread_at
looping-Progress [] o took w p e s =
    simp (e, s) (record { stop = sym s; draining = refl; less = omega arith })
looping-Progress (r ∷ q) o took w p e s =
    simp (e, s) (record { stop = sym s; draining = tt; less = simp (p, e) (omega arith) })

waiting-Progress :
    (q : List QueuedJsonlRecord) (w : JsonlBatchWriter)
    → w.thread ≡ waiting
    → w.queue ≡ q
    → Progress w (get_first q w)
waiting-Progress [] w p e = record { stop = refl; draining = tt; less = simp (p, e) (omega arith) }
waiting-Progress (r ∷ q) w p e = record {
  stop = refl;
  draining = tt;
  less = simp (p, e) (omega arith);
}

next-Progress :
    (batch q : List QueuedJsonlRecord) (w : JsonlBatchWriter)
    → w.thread ≡ collecting batch
    → w.queue ≡ q
    → Progress w (get_next batch q w)
next-Progress batch [] w p e = record {
  stop = refl;
  draining = tt;
  less = simp (p, e) (omega arith);
}
next-Progress batch (r ∷ q) w p e = record {
  stop = refl;
  draining = tt;
  less = simp (p, e) (omega arith);
}

flush-Progress :
    (o : Outcome) (took : ℕ) (batch : List QueuedJsonlRecord) (w : JsonlBatchWriter)
    → w.thread ≡ flushing batch
    → Progress w (flush_batch o took batch w)
unfolding flush_batch
flush-Progress all_written took batch w p = record {
  stop = refl;
  draining = tt;
  less = simp p (omega arith);
}
flush-Progress (failed_after n reached error) took batch w p = record {
  stop = refl;
  draining = tt;
  less = simp p (omega arith);
}

thread_at-Progress :
    (p : Phase) (o : Outcome) (took : ℕ) (w : JsonlBatchWriter)
    → w.thread ≡ p
    → w.stop ≡ true
    → IsDraining p w.queue
    → Progress w (thread_at p o took w)
unfolding thread_at
thread_at-Progress not_started o took w p s d = absurd d
thread_at-Progress exited o took w p s d = record {
  stop = refl;
  draining = simp p d;
  less = simp p (omega arith);
}
thread_at-Progress looping o took w p s d = looping-Progress w.queue o took w p refl s
thread_at-Progress waiting o took w p s d = waiting-Progress w.queue w p refl
thread_at-Progress (collecting batch) o took w p s d =
    elim (Bool-cases (ltb (length batch) w.batch_size)) [
      | inl room ↦ simp room (next-Progress batch w.queue w p refl)
      | inr full ↦ simp full (record { stop = refl; draining = tt; less = simp p (omega arith) })
    ]
thread_at-Progress (flushing batch) o took w p s d = flush-Progress o took batch w p

-- With nothing left to do the thread has ended.
done :
    (p : Phase) (q : List QueuedJsonlRecord)
    → IsDraining p q
    → work p q ≤ 0
    → (p ≡ exited) × (q ≡ [])
done not_started q d h = absurd d
done exited q d h = (refl, d)
done looping q d h = absurd (omega (arith, h))
done waiting [] d h = absurd (omega (arith, h))
done waiting (r ∷ q) d h = absurd (omega (arith, h))
done (collecting b) q d h = absurd (omega (arith, h))
done (flushing b) q d h = absurd (omega (arith, h))

-- A thread that runs and is told to stop ends with an empty queue, whatever becomes of its batches,
-- after at most four steps for each queued record and three more.
pub run_thread-exited :
    (l : List (Outcome × ℕ)) (w : JsonlBatchWriter)
    → w.stop ≡ true
    → IsDraining w.thread w.queue
    → work w.thread w.queue ≤ length l
    → let w' = run_thread l w in (w'.thread ≡ exited) × (w'.queue ≡ [])
unfolding run_thread thread_step
run_thread-exited [] w s d h = done w.thread w.queue d h
run_thread-exited ((o, took) ∷ l) w s d h =
    let p = thread_at-Progress w.thread o took w refl s d in
    run_thread-exited l (thread_at w.thread o took w) (p.stop ∙ s) p.draining
      (omega (arith, p.less, h))

completed-parts :
    (p : Phase) (q : List QueuedJsonlRecord)
    → (is_exited p && is_empty q) ≡ true
    → (held p ≡ []) × (q ≡ [])
completed-parts exited [] h = (refl, refl)
completed-parts exited (r ∷ q) h = cc
completed-parts not_started q h = cc
completed-parts looping q h = cc
completed-parts waiting q h = cc
completed-parts (collecting b) q h = cc
completed-parts (flushing b) q h = cc

-- When `close`, after it has waited, says that the shutdown flush is completed, the lines of a new
-- writer are exactly the records that it accepted, in their order, provided no batch met an exception.
pub run-completed :
    (batch_size queue_max_size sample_capacity : ℕ) (es : List Event)
    → All IsFine es
    → let (w, accepted) = run es (init batch_size queue_max_size sample_capacity) in
      (close_joined w).shutdown_flush_completed ≡ true → w.lines ≡ accepted
unfolding init close_joined
run-completed batch_size queue_max_size sample_capacity es fine h =
    let new = init batch_size queue_max_size sample_capacity in
    let (w, accepted) = run es new in
    let (none_held, none_queued) = completed-parts w.thread w.queue h in
    sym (append-nil w.lines)
    ∙ (sym (ap (λ l. w.lines ++ l) (simp (none_held, none_queued) refl)) ∙ run-on_hand es new fine)

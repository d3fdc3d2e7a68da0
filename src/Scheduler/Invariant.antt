-- ===== src/Scheduler/Invariant.antt =====
-- The slots of the scheduler (batch_scheduler.cpp): the count of running batches, and their sizes.
use ai_inference_gateway.Prelude.{
  ℕ, zero, suc, ◌+◌, ◌-◌, ◌≤◌, ◌<◌, ◌≡◌, inl, inr, Bool, List, [], ◌∷◌, arith, length,
  length-append, Option-cases, update, Option, some, get_elem?,
}
use ai_inference_gateway.Common.{InferenceEngine}
use ai_inference_gateway.Task.{Tasks}
use ai_inference_gateway.Scheduler.{
  BatchScheduler, enqueue, stop, clean, cleanup_expired, collect_batch, execute_batch,
}
use ai_inference_gateway.Scheduler.System.{
  World, Event, Place, head, window, throttled, stopped, schedules, submits, finishes, observes,
  times_out, stops, lets_create, step, run, run_from, after_head, after_window, throttle,
  with_batch, collect, cleanup, take_post, submit, finish, finish_at, observe, time_out, remove_at,
  to_head, spawn, submit_batch, to_task,
}

-- `active_batch_count_` is the number of running execution threads and of lost batches, and within its
-- limit. The engine is the one that `start` bound.
pub record Slots {F : Type 0} (bound : Option (InferenceEngine F)) (w : World F) : Type 0 where
  pub engine_kept : w.scheduler.engine ≡ bound
  pub counted : w.scheduler.active_batch_count ≡ length w.running_batches + length w.lost
  pub limited : w.scheduler.active_batch_count ≤ w.scheduler.max_concurrent_batches

length-remove_at :
    (k : ℕ) (bs : List (List ℕ)) (b : List ℕ)
    → get_elem? bs k ≡ some b
    → length (remove_at k bs) + 1 ≡ length bs
length-remove_at k [] b e = absurd (ground arith)
length-remove_at zero (x ∷ bs) b e = omega arith
length-remove_at (suc k) (x ∷ bs) b e = omega (arith, length-remove_at k bs b e)

module _ {F : Type 0} where
  execute_batch_slots :
      (b : List ℕ) (s : BatchScheduler F) (tasks : Tasks F)
      → let s' = (execute_batch b s tasks).0 in
        (s'.active_batch_count ≡ s.active_batch_count - 1)
        × (s'.max_concurrent_batches ≡ s.max_concurrent_batches)
        × (s'.engine ≡ s.engine)
  unfolding execute_batch
  execute_batch_slots [] s tasks = ground arith
  execute_batch_slots (t ∷ b) s tasks = ground arith

  enqueue_slots :
      (now p : ℕ) (s : BatchScheduler F) (tasks : Tasks F)
      → let s' = (enqueue now p s tasks).1 in
        (s'.active_batch_count ≡ s.active_batch_count)
        × (s'.max_concurrent_batches ≡ s.max_concurrent_batches)
        × (s'.engine ≡ s.engine)
  unfolding enqueue
  enqueue_slots now p s tasks = ground arith

module _ {F : Type 0} {bound : Option (InferenceEngine F)} where
  spawn-Slots :
      (batch : List ℕ) (w : World F)
      → w.scheduler.active_batch_count < w.scheduler.max_concurrent_batches
      → Slots bound w
      → Slots bound (spawn batch w)
  unfolding spawn
  spawn-Slots [] w h v = ground arith
  spawn-Slots (t ∷ batch) w h v = ground (
    arith,
    length-append w.running_batches ((t ∷ batch) ∷ []),
    length-append w.lost ((t ∷ batch) ∷ []),
  )

  throttle-Slots :
      (now : ℕ) (batch : List ℕ) (w : World F) → Slots bound w → Slots bound (throttle now batch w)
  unfolding throttle submit_batch
  throttle-Slots now batch w v = ground (
    arith,
    spawn-Slots (clean now batch w.tasks).0 (record w { tasks = (clean now batch w.tasks).1 }),
  )

  with_batch-Slots :
      (now : ℕ) (batch : List ℕ) (w : World F)
      → Slots bound w
      → Slots bound (with_batch now batch w)
  unfolding with_batch to_head
  with_batch-Slots now [] w v = ground arith
  with_batch-Slots now (t ∷ batch) w v = throttle-Slots now (t ∷ batch) w v

  collect-Slots : (now : ℕ) (w : World F) → Slots bound w → Slots bound (collect now w)
  unfolding collect collect_batch
  collect-Slots now w v =
      with_batch-Slots now _ _
        (record { engine_kept = v.engine_kept; counted = v.counted; limited = v.limited })

  cleanup-Slots : (now : ℕ) (w : World F) → Slots bound w → Slots bound (cleanup now w)
  unfolding cleanup cleanup_expired
  cleanup-Slots now w v = record {
    engine_kept = v.engine_kept;
    counted = v.counted;
    limited = v.limited;
  }

  take_post-Slots : (posted : Bool) (w : World F) → Slots bound w → Slots bound (take_post posted w)
  unfolding take_post
  take_post-Slots posted w v = ground arith

  after_head-Slots : (now : ℕ) (w : World F) → Slots bound w → Slots bound (after_head now w)
  unfolding after_head
  after_head-Slots now w v =
      let kept = cleanup-Slots now w v in
      ground (arith, kept, collect-Slots now (cleanup now w) kept)

  after_window-Slots : (now : ℕ) (w : World F) → Slots bound w → Slots bound (after_window now w)
  unfolding after_window
  after_window-Slots now w v =
      ground (arith, collect-Slots now (cleanup now w) (cleanup-Slots now w v))

  run_from-Slots :
      (now : ℕ) (posted : Bool) (place : Place) (w : World F)
      → Slots bound w
      → Slots bound (run_from now posted place w)
  unfolding run_from
  run_from-Slots now posted head w v = after_head-Slots now _ (take_post-Slots posted w v)
  run_from-Slots now posted window w v = after_window-Slots now w v
  run_from-Slots now posted (throttled batch) w v =
      throttle-Slots now batch _ (take_post-Slots posted w v)
  run_from-Slots now posted stopped w v = v

  -- Every step keeps the count of running batches right and within `max_concurrent_batches_`.
  pub step-Slots : (w : World F) (e : Event F) → Slots bound w → Slots bound (step w e)
  unfolding step submit finish finish_at observe time_out stop
  step-Slots w (schedules now posted) v = run_from-Slots now posted w.place w v
  step-Slots w (submits now p r) v =
      ground (arith, enqueue_slots now p w.scheduler (update w.tasks p (to_task r)))
  step-Slots w (lets_create created) v = ground arith
  step-Slots w (finishes k) v = elim (Option-cases (get_elem? w.running_batches k)) [
    | inl e ↦ rw e v
    | inr (b, e) ↦ rw e (
        ground (
          arith,
          execute_batch_slots b w.scheduler w.tasks,
          length-remove_at k w.running_batches b e,
        ))
  ]
  step-Slots w (observes p) v = ground arith
  step-Slots w (times_out p) v = ground arith
  step-Slots w stops v = ground arith

  -- From a state that has the engine that was bound, counts its running batches and the batches whose
  -- thread was not created, and counts no more than the limit, every history leads to such a state: the
  -- throttle keeps its limit, no slot is given back twice, and each slot that is counted is that of a
  -- running batch or of a batch whose thread `pthread_create` did not make.
  pub run-Slots : (w : World F) (es : List (Event F)) → Slots bound w → Slots bound (run w es)
  unfolding run
  run-Slots w [] v = v
  run-Slots w (e ∷ es) v = run-Slots (step w e) es (step-Slots w e v)

-- ===== src/Scheduler/Dangling.antt =====
-- What `run` and its workers (batch_scheduler.cpp, inference_task.h) do not handle: a worker that
-- gives up while its task is held, and tasks that wait when the scheduler stops.
use ai_inference_gateway.Prelude.{
  ℕ, ◌≡◌, refl, inl, inr, Bool, true, false, List, [], ◌∷◌, arith, Option-cases, update, some,
  get_elem?,
}
use ai_inference_gateway.Common.{InferenceEngine}
use ai_inference_gateway.Scheduler.{stop, execute_batch}
use ai_inference_gateway.Scheduler.System.{
  World, Event, schedules, submits, finishes, observes, times_out, stops, lets_create, step, run,
  run_from, stopped, submit, finish, finish_at, observe, to_task, Place,
}
use ai_inference_gateway.Scheduler.Invariant.{Slots, step-Slots}
use ai_inference_gateway.Scheduler.Ownership.{queued}
use ai_inference_gateway.Scheduler.Ownership.Hands.{enqueue_holds}
use ai_inference_gateway.Scheduler.Liveness.{Owned, IsCalm, AllCalm, step-Owned}

-- The task at `p` waits in a queue, and the scheduler thread has ended.
pub record Stranded {F : Type 0} (p : ℕ) (w : World F) : Type 0 where
  pub waits : queued p w.scheduler ≡ 1
  pub ended : w.place ≡ stopped

module _ {F : Type 0} where
  finish-queued :
      (p k : ℕ) (b : List ℕ) (w : World F)
      → (queued p (finish k b w).scheduler ≡ queued p w.scheduler)
        × ((finish k b w).place ≡ w.place)
  unfolding finish execute_batch
  finish-queued p k [] w = ground arith
  finish-queued p k (t ∷ b) w = ground arith

  run_from_stopped :
      (now : ℕ) (posted : Bool) (place : Place) (w : World F)
      → place ≡ stopped
      → run_from now posted place w ≡ w
  unfolding run_from
  run_from_stopped now posted stopped w e = refl
  run_from_stopped now posted _ w e = cc

module _ {F : Type 0} {engine : InferenceEngine F} where
  step-Stranded :
      (p : ℕ) (w : World F) (e : Event F)
      → Slots (some engine) w
      → IsCalm e
      → Owned p w
      → Stranded p w
      → Stranded p (step w e)
  unfolding step run_from submit finish_at observe stop to_task
  step-Stranded p w (schedules now posted) v c o s =
      rw (run_from_stopped now posted w.place w s.ended) s
  step-Stranded p w (submits now q r) v c o s =
      ground (arith, enqueue_holds p now q w.scheduler (update w.tasks q (to_task r)))
  step-Stranded p w (lets_create created) v c o s = record { waits = s.waits; ended = s.ended }
  step-Stranded p w (finishes k) v c o s = elim (Option-cases (get_elem? w.running_batches k)) [
    | inl e ↦ rw e s
    | inr (b, e) ↦ rw e (ground (arith, finish-queued p k b w))
  ]
  step-Stranded p w (observes q) v c o s = ground arith
  step-Stranded p w (times_out q) v c o s = absurd c
  step-Stranded p w stops v c o s = ground arith

  -- From a state in which the scheduler thread has ended and an owned task that nobody has done waits
  -- in a queue, with the batches counted right: in every history in which no worker gives up the task
  -- stays in its queue, is never done, and its worker waits for it.
  pub run-Stranded :
      (p : ℕ) (w : World F) (es : List (Event F))
      → Slots (some engine) w
      → AllCalm es
      → Owned p w
      → Stranded p w
      → let w' = run w es in Stranded p w' × (w'.live p ≡ true) × ((w'.tasks p).completed ≡ false)
  unfolding run
  run-Stranded p w [] v c o s = ground arith
  run-Stranded p w (e ∷ es) v c o s =
      run-Stranded p (step w e) es (step-Slots w e v) c.1 (step-Owned p w e v c.0 o)
        (step-Stranded p w e v c.0 o s)

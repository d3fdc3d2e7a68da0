-- ===== src/Scheduler/Liveness.antt =====
-- The life of a task (batch_scheduler.cpp, inference_task.h): while no worker gives up, a submitted
-- task is held exactly once until it is marked done, and its worker is there when that happens.
use ai_inference_gateway.Prelude.{
  ℕ, ◌≡◌, refl, ◌⊎◌, inl, inr, Bool, true, false, List, [], ◌∷◌, arith, Option-cases, update, some,
  get_elem?,
}
use ai_inference_gateway.Common.{InferenceEngine}
use ai_inference_gateway.Scheduler.{stop, clean}
use ai_inference_gateway.Scheduler.System.{
  World, Event, schedules, submits, finishes, observes, times_out, stops, lets_create, step, run,
  run_from, submit, Place, head, window, throttled, stopped, after_head, after_window, take_post,
  cleanup, collect, with_batch, throttle, submit_batch, spawn, to_head, finish, finish_at, observe,
  to_task,
}
use ai_inference_gateway.Scheduler.Invariant.{Slots, step-Slots}
use ai_inference_gateway.Scheduler.Ownership.{holds}
use ai_inference_gateway.Scheduler.Ownership.Stretches.{run_from-Settles}
use ai_inference_gateway.Scheduler.Ownership.Hands.{finish-Settles, enqueue_holds}

-- A worker waits for a task that is held in one place and is not done; or the task is held nowhere
-- and, if its worker is still there, done.
abbrev pub Owned : {F : Type 0} → ℕ → World F → Type 0
Owned p w =
    ((holds p w ≡ 1) × (w.live p ≡ true) × ((w.tasks p).completed ≡ false))
    ⊎ ((holds p w ≡ 0) × ((w.live p ≡ false) ⊎ ((w.tasks p).completed ≡ true)))

-- Events other than a worker's giving up.
abbrev pub IsCalm : {F : Type 0} → Event F → Type 0
IsCalm (times_out p) = ⊥
IsCalm (schedules now posted) = Unit
IsCalm (submits now p r) = Unit
IsCalm (finishes k) = Unit
IsCalm (observes p) = Unit
IsCalm (lets_create created) = Unit
IsCalm stops = Unit

abbrev pub AllCalm : {F : Type 0} → List (Event F) → Type 0
AllCalm [] = Unit
AllCalm (e ∷ es) = IsCalm e × AllCalm es

-- The scheduler thread leaves the workers' frames alone.
module _ {F : Type 0} where
  spawn-live : (batch : List ℕ) (w : World F) → (spawn batch w).live ≡ w.live
  unfolding spawn
  spawn-live [] w = refl
  spawn-live (t ∷ batch) w = refl

  throttle-live : (now : ℕ) (batch : List ℕ) (w : World F) → (throttle now batch w).live ≡ w.live
  unfolding throttle submit_batch
  throttle-live now batch w = ground (
    arith,
    spawn-live (clean now batch w.tasks).0 (record w { tasks = (clean now batch w.tasks).1 }),
  )

  with_batch-live :
      (now : ℕ) (batch : List ℕ) (w : World F) → (with_batch now batch w).live ≡ w.live
  unfolding with_batch to_head
  with_batch-live now [] w = refl
  with_batch-live now (t ∷ batch) w = throttle-live now (t ∷ batch) w

  collect-live : (now : ℕ) (w : World F) → (collect now w).live ≡ w.live
  unfolding collect
  collect-live now w = with_batch-live now _ _

  pub run_from-live :
      (now : ℕ) (posted : Bool) (place : Place) (w : World F)
      → (run_from now posted place w).live ≡ w.live
  unfolding run_from after_head after_window cleanup take_post
  run_from-live now posted head w =
      ground (arith, collect-live now (cleanup now (take_post posted w)))
  run_from-live now posted window w = ground (arith, collect-live now (cleanup now w))
  run_from-live now posted (throttled batch) w =
      ground (arith, throttle-live now batch (take_post posted w))
  run_from-live now posted stopped w = refl

  pub finish-live : (k : ℕ) (b : List ℕ) (w : World F) → (finish k b w).live ≡ w.live
  unfolding finish
  finish-live k b w = refl

module _ {F : Type 0} {engine : InferenceEngine F} where
  pub step-Owned :
      (p : ℕ) (w : World F) (e : Event F)
      → Slots (some engine) w
      → IsCalm e
      → Owned p w
      → Owned p (step w e)
  unfolding step submit finish_at observe stop to_task
  step-Owned p w (schedules now posted) v c o =
      ground
        (arith, run_from-Settles p now posted w.place w refl, run_from-live now posted w.place w)
  step-Owned p w (submits now q r) v c o =
      ground (arith, enqueue_holds p now q w.scheduler (update w.tasks q (to_task r)))
  step-Owned p w (lets_create created) v c o = o
  step-Owned p w (finishes k) v c o = elim (Option-cases (get_elem? w.running_batches k)) [
    | inl e ↦ rw e o
    | inr (b, e) ↦ rw e (ground (arith, finish-Settles p k b w v.engine_kept e, finish-live k b w))
  ]
  step-Owned p w (observes q) v c o = ground arith
  step-Owned p w (times_out q) v c o = absurd c
  step-Owned p w stops v c o = ground arith

  -- From a state with an engine, the batches counted right and the task owned, every history in which
  -- no worker gives up keeps the task owned: until it is marked done it is in exactly one place, a queue,
  -- the scheduler thread's hand, a running batch or a batch whose thread `pthread_create` did not make,
  -- and its worker is still there; once it is in none of them it is done or its worker has left. So no
  -- task is run twice, and the locked section of `mark_done` finds the worker there (the signal that
  -- `mark_done` sends after that section is no part of this).
  pub run-Owned :
      (p : ℕ) (w : World F) (es : List (Event F))
      → Slots (some engine) w
      → AllCalm es
      → Owned p w
      → Owned p (run w es)
  unfolding run
  run-Owned p w [] v c o = o
  run-Owned p w (e ∷ es) v c o =
      run-Owned p (step w e) es (step-Slots w e v) c.1 (step-Owned p w e v c.0 o)

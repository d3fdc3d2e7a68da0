-- ===== src/Scheduler/System.antt =====
-- `BatchScheduler::run` (batch_scheduler.cpp) and what happens around it, as steps. The scheduler
-- thread runs in stretches between two waits; between them workers submit tasks, see them done or
-- give up, execution threads finish batches, and `stop` is called. Each stretch is one step.
use ai_inference_gateway.Prelude.{
  ℕ, zero, suc, ◌+◌, Bool, true, false, ◌&&◌, List, [], ◌∷◌, ◌++◌, Option, none, some,
  if◌then◌else◌, ltb, leb, ◌==◌, update, get_elem?, Bytes,
}
use ai_inference_gateway.Prelude.Int.{ℤ}
use ai_inference_gateway.Task.{InferenceTask, Tasks, new_task, wait_check, wait_wake}
use ai_inference_gateway.Lock.{timedwait}
use ai_inference_gateway.Scheduler.{
  BatchScheduler, enqueue, stop, pending_count, clean, cleanup_expired, collect_batch,
  execute_batch, expire_all,
}

-- Where the scheduler thread waits: in `queue_sem_.timedwait` at the head of the loop, in the
-- `usleep` of the window, in the throttle's `timedwait` with a collected batch, or nowhere any more.
pub data Place : Type 0 where
  head window stopped : Place
  throttled : List ℕ → Place

-- `running_batches` are the batches of the execution threads, and `lost` those whose thread
-- `pthread_create` did not make. `can_create` is its answer, which may change at any time (the call of
-- `pthread_detach` on a thread that was not made has no effect here). `live` says of an address whether a
-- worker is in `do_request` with a submitted task there.
pub record World (F : Type 0) : Type 0 where
  pub scheduler : BatchScheduler F
  pub tasks : Tasks F
  pub place : Place
  pub running_batches : List (List ℕ)
  pub lost : List (List ℕ)
  pub can_create : Bool
  pub live : ℕ → Bool

-- The threads that are left when thread `k` has finished.
abbrev pub remove_at : ℕ → List (List ℕ) → List (List ℕ)
remove_at k [] = []
remove_at zero (b ∷ bs) = bs
remove_at (suc k) (b ∷ bs) = b ∷ remove_at k bs

-- What `do_request` writes into a new task.
pub record Request (F : Type 0) : Type 0 where
  pub client_fd : ℤ
  pub model_name : Bytes
  pub input_data : List F
  pub priority : ℕ
  pub deadline : ℕ

pub data Event (F : Type 0) : Type 0 where
  schedules : ℕ → Bool → Event F
  submits : ℕ → ℕ → Request F → Event F
  lets_create : Bool → Event F
  finishes : ℕ → Event F
  observes times_out : ℕ → Event F
  stops : Event F

module _ {F : Type 0} where
  -- `while (running_)`
  unfoldable pub to_head : World F → World F
  to_head w = record w { place = if w.scheduler.running then head else stopped }

  -- `++active_batch_count_` and the execution thread, unless the whole batch has expired; nobody looks at
  -- whether the thread was created
  unfoldable pub spawn : List ℕ → World F → World F
  unfolding to_head
  spawn [] w = to_head w
  spawn (t ∷ batch) w = to_head (record w {
    scheduler = record (w.scheduler) { active_batch_count = w.scheduler.active_batch_count + 1 };
    running_batches =
        if w.can_create then w.running_batches ++ (t ∷ batch) ∷ [] else w.running_batches;
    lost = if w.can_create then w.lost else w.lost ++ (t ∷ batch) ∷ [];
  })

  -- The filter before the submission, and the submission.
  unfoldable pub submit_batch : ℕ → List ℕ → World F → World F
  submit_batch now batch w =
      let (valid, tasks) = clean now batch w.tasks in spawn valid (record w { tasks = tasks })

  -- From the test of the throttle's loop on.
  unfoldable pub throttle : ℕ → List ℕ → World F → World F
  throttle now batch w =
      if w.scheduler.running
      then (if leb w.scheduler.max_concurrent_batches w.scheduler.active_batch_count
          then record w { place = throttled batch }
          else submit_batch now batch w)
      else record w { tasks = expire_all batch w.tasks; place = stopped }

  -- `if (!batch.empty())`
  unfoldable pub with_batch : ℕ → List ℕ → World F → World F
  with_batch now [] w = to_head w
  with_batch now (t ∷ batch) w = throttle now (t ∷ batch) w

  unfoldable pub collect : ℕ → World F → World F
  collect now w =
      let (batch, s) = collect_batch w.scheduler in
      with_batch now batch (record w { scheduler = s })

  unfoldable pub cleanup : ℕ → World F → World F
  cleanup now w =
      let (s, tasks) = cleanup_expired now w.scheduler w.tasks in
      record w { scheduler = s; tasks = tasks }

  -- After the wait at the head.
  unfoldable pub after_head : ℕ → World F → World F
  after_head now w =
      if w.scheduler.running
      then (let w' = cleanup now w in
          if w'.scheduler.active_batch_count == 0 && ltb 0 (pending_count w'.scheduler)
          then record w' { place = window }
          else collect now w')
      else record w { place = stopped }

  -- After the sleep of the window.
  unfoldable pub after_window : ℕ → World F → World F
  after_window now w =
      if w.scheduler.running then collect now (cleanup now w) else record w { place = stopped }

  -- A wait on the semaphore comes back: with a post taken, or without one, at its
  -- time limit or for a signal.
  unfoldable pub take_post : Bool → World F → World F
  take_post posted w =
      if posted
      then record w {
        scheduler = record (w.scheduler) { queue_sem = (timedwait w.scheduler.queue_sem).1 };
      }
      else w

  unfoldable pub run_from : ℕ → Bool → Place → World F → World F
  run_from now posted head w = after_head now (take_post posted w)
  run_from now posted window w = after_window now w
  run_from now posted (throttled batch) w = throttle now batch (take_post posted w)
  run_from now posted stopped w = w

  -- `InferenceTask task;` and the assignments of `do_request`
  unfoldable pub to_task : Request F → InferenceTask F
  unfolding new_task
  to_task r = record new_task {
    client_fd = r.client_fd;
    model_name = r.model_name;
    input_data = r.input_data;
    priority = r.priority;
    deadline = r.deadline;
  }

  -- A worker submits a task at the address `p` of its stack frame; if it is refused, the worker
  -- returns at once.
  unfoldable pub submit : ℕ → ℕ → InferenceTask F → World F → World F
  submit now p t w =
      let (done, s, tasks) = enqueue now p w.scheduler (update w.tasks p t) in
      record w {
        scheduler = s;
        tasks = tasks;
        live = if done then update w.live p true else w.live;
      }

  -- An execution thread ends with the batch `b`.
  unfoldable pub finish : ℕ → List ℕ → World F → World F
  finish k b w =
      let (s, tasks) = execute_batch b w.scheduler w.tasks in
      record w { scheduler = s; tasks = tasks; running_batches = remove_at k w.running_batches }

  unfoldable pub finish_at : ℕ → Option (List ℕ) → World F → World F
  finish_at k none w = w
  finish_at k (some b) w = finish k b w

  -- The worker's wait returns since the task is done: its frame ends.
  unfoldable pub observe : ℕ → World F → World F
  unfolding wait_check
  observe p w = elim (wait_check (w.tasks p)) [
    | none ↦ w
    | some r ↦ record w { live = update w.live p false }
  ]

  -- The worker's wait returns since its time is up: its frame ends too.
  unfoldable pub time_out : ℕ → World F → World F
  unfolding wait_wake
  time_out p w = record w {
    tasks = update w.tasks p (wait_wake true (w.tasks p)).0;
    live = update w.live p false;
  }

  -- An event that cannot happen changes nothing.
  unfoldable pub step : World F → Event F → World F
  step w (schedules now posted) = run_from now posted w.place w
  step w (submits now p r) = if w.live p then w else submit now p (to_task r) w
  step w (lets_create created) = record w { can_create = created }
  step w (finishes k) = finish_at k (get_elem? w.running_batches k) w
  step w (observes p) = if w.live p then observe p w else w
  step w (times_out p) = if w.live p then time_out p w else w
  step w stops = record w { scheduler = stop w.scheduler }

  unfoldable pub run : World F → List (Event F) → World F
  run w [] = w
  run w (e ∷ es) = run (step w e) es

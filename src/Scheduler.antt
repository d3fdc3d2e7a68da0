-- ===== src/Scheduler.antt =====
-- scheduler/batch_scheduler.h and batch_scheduler.cpp, one function for each operation and for each
-- stretch of `run` between two waits. A task is its address; what it holds stands in `Tasks`.
-- The integers that configure the scheduler are natural numbers: the code tests them only by
-- `n > 0` and `size < n`, where a negative number acts as 0. `now` is what `time(nullptr)` returns.
pub mod Queues
pub mod Expiry
pub mod Execute
pub mod System
pub mod Invariant
pub mod Ownership
pub mod Liveness
pub mod Dangling
mod Tests
use ai_inference_gateway.Prelude.{
  ℕ, zero, suc, ◌+◌, ◌-◌, ◌%◌, ◌^◌, Bool, true, false, ◌&&◌, List, [], ◌∷◌, ◌++◌, map, Option, none,
  some, Bytes, codes, if◌then◌else◌, ltb, leb, ◌==◌, update, length,
}
use ai_inference_gateway.Common.{InferenceInput, InferenceResult, InferenceEngine}
use ai_inference_gateway.Task.{InferenceTask, Tasks, mark_done, expire}
use ai_inference_gateway.Lock.{post}

pub record BatchScheduler (F : Type 0) : Type 0 where
  pub queue_high : List ℕ
  pub queue_mid : List ℕ
  pub queue_low : List ℕ
  pub queue_sem : ℕ
  pub batch_window_ms : ℕ
  pub max_batch_size : ℕ
  pub max_concurrent_batches : ℕ
  pub max_queue_size : ℕ
  pub active_batch_count : ℕ
  pub engine : Option (InferenceEngine F)
  pub running : Bool
  pub next_task_id : ℕ

-- The lambda `collect_from`: the batch so far and the rest of the queue.
unfoldable pub collect_from : ℕ → List ℕ → List ℕ → List ℕ × List ℕ
collect_from max batch [] = (batch, [])
collect_from max batch (t ∷ q) = elim (ltb (length batch) max) [
  | true ↦ collect_from max (batch ++ t ∷ []) q
  | false ↦ (batch, t ∷ q)
]

module _ {F : Type 0} where
  -- the constructor
  unfoldable pub new_scheduler : BatchScheduler F
  new_scheduler = record {
    queue_high = [];
    queue_mid = [];
    queue_low = [];
    queue_sem = 0;
    batch_window_ms = 10;
    max_batch_size = 8;
    max_concurrent_batches = 2;
    max_queue_size = 0;
    active_batch_count = 0;
    engine = none;
    running = false;
    next_task_id = 1;
  }

  unfoldable pub set_max_concurrent_batches : BatchScheduler F → ℕ → BatchScheduler F
  set_max_concurrent_batches s n = record s { max_concurrent_batches = if ltb 0 n then n else 1 }

  -- `created` says whether `pthread_create` gave a thread.
  unfoldable pub start :
      BatchScheduler F → Option (InferenceEngine F) → Bool → Bool × BatchScheduler F
  start s none created = (false, s)
  start s (some e) created =
      if created
      then (true, record s { engine = some e; running = true })
      else (false, record s { engine = some e; running = false })

  unfoldable pub stop : BatchScheduler F → BatchScheduler F
  unfolding post
  stop s = record s { running = false; queue_sem = post s.queue_sem }

  unfoldable pub pending_count : BatchScheduler F → ℕ
  pending_count s = length s.queue_high + length s.queue_mid + length s.queue_low

  -- `switch (task->priority)`
  push_by_priority : ℕ → ℕ → BatchScheduler F → BatchScheduler F
  push_by_priority priority task s =
      if priority == 0
      then record s { queue_high = s.queue_high ++ task ∷ [] }
      else if priority == 2
      then record s { queue_low = s.queue_low ++ task ∷ [] }
      else record s { queue_mid = s.queue_mid ++ task ∷ [] }

  -- The branch of `enqueue` that takes the task.
  accept : ℕ → ℕ → BatchScheduler F → Tasks F → BatchScheduler F × Tasks F
  unfolding push_by_priority post
  accept now task s tasks =
      let t = record (tasks task) { task_id = s.next_task_id; arrival_time = now } in
      let s' =
        push_by_priority t.priority task
          (record s { next_task_id = (s.next_task_id + 1) % 2 ^ 64 }) in
      (record s' { queue_sem = post s'.queue_sem }, update tasks task t)

  unfoldable pub enqueue : ℕ → ℕ → BatchScheduler F → Tasks F → Bool × BatchScheduler F × Tasks F
  unfolding pending_count accept
  enqueue now task s tasks =
      if ltb 0 s.max_queue_size && leb s.max_queue_size (pending_count s)
      then (false, s, tasks)
      else (let (s', tasks') = accept now task s tasks in (true, s', tasks'))

  -- `t->deadline > 0 && t->deadline < now`
  abbrev pub is_expired : ℕ → InferenceTask F → Bool
  is_expired now t = ltb 0 t.deadline && ltb t.deadline now

  -- The lambda `clean` of `cleanup_expired`, and the filter of `run` before a batch is submitted:
  -- expired tasks are marked and leave, the others keep their order.
  unfoldable pub clean : ℕ → List ℕ → Tasks F → List ℕ × Tasks F
  clean now [] tasks = ([], tasks)
  clean now (t ∷ q) tasks = elim (is_expired now (tasks t)) [
    | true ↦ clean now q (update tasks t (expire (tasks t)))
    | false ↦ (let (q', tasks') = clean now q tasks in (t ∷ q', tasks'))
  ]

  unfoldable pub cleanup_expired : ℕ → BatchScheduler F → Tasks F → BatchScheduler F × Tasks F
  cleanup_expired now s tasks =
      let (high, tasks₁) = clean now s.queue_high tasks in
      let (mid, tasks₂) = clean now s.queue_mid tasks₁ in
      let (low, tasks₃) = clean now s.queue_low tasks₂ in
      (record s { queue_high = high; queue_mid = mid; queue_low = low }, tasks₃)

  unfoldable pub collect_batch : BatchScheduler F → List ℕ × BatchScheduler F
  collect_batch s =
      let (batch₁, high) = collect_from s.max_batch_size [] s.queue_high in
      let (batch₂, mid) = collect_from s.max_batch_size batch₁ s.queue_mid in
      let (batch₃, low) = collect_from s.max_batch_size batch₂ s.queue_low in
      (batch₃, record s { queue_high = high; queue_mid = mid; queue_low = low })

  -- What `execute_batch` hands to the engine for a task.
  unfoldable pub to_input : InferenceTask F → InferenceInput F
  to_input t = record { model_name = t.model_name; values = t.input_data; shape = [] }

  -- The result of one task, with `none` where the engine returned too few.
  unfoldable pub write_back : InferenceTask F → Option (InferenceResult F) → InferenceTask F
  unfolding mark_done
  write_back t none =
      mark_done (record t { success = false; error_msg = codes "batch result mismatch" })
  write_back t (some r) = mark_done (
      if r.success
      then record t { output_data = r.values; success = true }
      else record t { success = false; error_msg = r.error_msg })

  -- The loop over the batch, beside the results from the loop's index on.
  unfoldable pub write_results : List ℕ → List (InferenceResult F) → Tasks F → Tasks F
  write_results [] results tasks = tasks
  write_results (t ∷ batch) [] tasks =
      write_results batch [] (update tasks t (write_back (tasks t) none))
  write_results (t ∷ batch) (r ∷ results) tasks =
      write_results batch results (update tasks t (write_back (tasks t) (some r)))

  -- What happens when the engine is there and the batch is not empty.
  infer_and_write : InferenceEngine F → List ℕ → Tasks F → Tasks F
  unfolding write_results to_input
  infer_and_write e batch tasks =
      write_results batch (e.infer_batch (map (λ t. to_input (tasks t)) batch)) tasks

  -- `--active_batch_count_` is on an int, which would go below 0 where nothing is counted; a batch that
  -- runs is counted, by `Slots` of Scheduler/Invariant.
  unfoldable pub execute_batch : List ℕ → BatchScheduler F → Tasks F → BatchScheduler F × Tasks F
  unfolding post infer_and_write
  execute_batch [] s tasks = (record s { active_batch_count = s.active_batch_count - 1 }, tasks)
  execute_batch (t ∷ batch) s tasks = elim s.engine [
    | none ↦ (record s { active_batch_count = s.active_batch_count - 1 }, tasks)
    | some e ↦ (
      record s { active_batch_count = s.active_batch_count - 1; queue_sem = post s.queue_sem },
      infer_and_write e (t ∷ batch) tasks,
    )
  ]

  -- Leaving `run` with a collected batch: every task of it is timed out.
  unfoldable pub expire_all : List ℕ → Tasks F → Tasks F
  expire_all [] tasks = tasks
  expire_all (t ∷ batch) tasks = expire_all batch (update tasks t (expire (tasks t)))

-- `int wait_ms` at the head of the loop
unfoldable pub wait_ms : {F : Type 0} → BatchScheduler F → ℕ
wait_ms s = if ltb 0 s.active_batch_count then s.batch_window_ms else 500

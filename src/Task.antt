-- ===== src/Task.antt =====
-- scheduler/inference_task.h: the task that a worker shares with the scheduler, by its address.
mod Marks
use ai_inference_gateway.Prelude.{
  ℕ, Bool, true, false, List, [], Option, none, some, Bytes, if◌then◌else◌, not,
}
use ai_inference_gateway.Prelude.Int.{ℤ, negsuc}

-- The mutex and the condition variable have no state of their own here.
pub record InferenceTask (F : Type 0) : Type 0 where
  pub task_id : ℕ
  pub client_fd : ℤ
  pub model_name : Bytes
  pub input_data : List F
  pub arrival_time : ℕ
  pub deadline : ℕ
  pub priority : ℕ
  pub output_data : List F
  pub completed : Bool
  pub timeout : Bool
  pub success : Bool
  pub error_msg : Bytes

-- The tasks by their addresses.
abbrev pub Tasks : Type 0 → Type 0
Tasks F = ℕ → InferenceTask F

module _ {F : Type 0} where
  -- the constructor
  unfoldable pub new_task : InferenceTask F
  new_task = record {
    task_id = 0;
    client_fd = negsuc 0;
    model_name = [];
    input_data = [];
    arrival_time = 0;
    deadline = 0;
    priority = 1;
    output_data = [];
    completed = false;
    timeout = false;
    success = false;
    error_msg = [];
  }

  -- The locked section of `mark_done`. `pthread_cond_signal` follows it outside the lock and writes to no
  -- field of the record; Task/Marks has it as a step of its own, which may come after the task's end.
  unfoldable pub mark_done : InferenceTask F → InferenceTask F
  mark_done t = record t { completed = true }

  -- `t->timeout = true; t->mark_done();`, as the scheduler writes it in three places
  unfoldable pub expire : InferenceTask F → InferenceTask F
  unfolding mark_done
  expire t = mark_done (record t { timeout = true })

  -- The test of the loop in `wait_with_timeout_ms`, under the task's mutex: `some r` is a return of
  -- `r`, and `none` blocks on the condition variable.
  unfoldable pub wait_check : InferenceTask F → Option Bool
  wait_check t = if t.completed then some (not t.timeout) else none

  -- What follows a wake-up: ETIMEDOUT is looked at before `completed` is read again.
  unfoldable pub wait_wake : Bool → InferenceTask F → InferenceTask F × Option Bool
  unfolding wait_check
  wait_wake timed_out t =
      if timed_out
      then (record t { timeout = true; completed = true }, some false)
      else (t, wait_check t)

-- ===== src/Scheduler/Tests.antt =====
-- The scheduler at concrete inputs, with numbers for floats and an engine that doubles.
use ai_inference_gateway.Prelude.{
  ℕ, ◌+◌, ◌*◌, ◌≤◌, ◌<◌, ◌≡◌, refl, ◌↔◌, inl, true, false, List, [], ◌∷◌, arith, map, ◌||◌,
  if◌then◌else◌, ◌==◌, some, codes,
}
use ai_inference_gateway.Prelude.Int.{pos}
use ai_inference_gateway.Common.{InferenceEngine}
use ai_inference_gateway.Task.{InferenceTask, Tasks, expire, mark_done, wait_check}
use ai_inference_gateway.Lock.{post, timedwait}
use ai_inference_gateway.Scheduler.{
  BatchScheduler, enqueue, pending_count, collect_batch, cleanup_expired, execute_batch, stop,
  write_back, write_results, to_input, clean, collect_from,
}
use ai_inference_gateway.Scheduler.Queues.{
  mid, waiting, enqueue_refuses, enqueue_bound, enqueue_accepts, collect_batch_lem,
}
use ai_inference_gateway.Scheduler.Expiry.{cleanup_expired_lem}
use ai_inference_gateway.Scheduler.Execute.{execute_batch_lem}
use ai_inference_gateway.Scheduler.System.{
  World, head, stopped, Event, schedules, lets_create, stops, finishes, observes, step, run,
  run_from, after_head, after_window, take_post, cleanup, collect, with_batch, throttle,
  submit_batch, spawn, to_head, finish, finish_at, observe,
}
use ai_inference_gateway.Scheduler.Invariant.{Slots, run-Slots}
use ai_inference_gateway.Scheduler.Ownership.{holds}
use ai_inference_gateway.Scheduler.Liveness.{Owned, run-Owned}
use ai_inference_gateway.Scheduler.Dangling.{Stranded, run-Stranded}

abbrev doubling : InferenceEngine ℕ
doubling = record {
  infer_batch = map (λ i. record {
    values = map (λ x. x * 2) i.values;
    shape = i.shape;
    success = true;
    error_msg = [];
  });
  get_model_info = record {
    name = codes "doubling";
    input_shape = [];
    output_shape = [];
    input_size = 4;
    output_size = 4;
  };
}

-- Three tasks wait: 7 with a high priority, 5 and 6 with the default one; 6 has expired at time 50.
abbrev task_at : ℕ → ℕ → InferenceTask ℕ
task_at priority deadline = record {
  task_id = 0;
  client_fd = pos 4;
  model_name = codes "m";
  input_data = 1 ∷ 2 ∷ [];
  arrival_time = 0;
  deadline = deadline;
  priority = priority;
  output_data = [];
  completed = false;
  timeout = false;
  success = false;
  error_msg = [];
}

abbrev busy : BatchScheduler ℕ
busy = record {
  queue_high = 7 ∷ [];
  queue_mid = 5 ∷ 6 ∷ [];
  queue_low = [];
  queue_sem = 3;
  batch_window_ms = 10;
  max_batch_size = 2;
  max_concurrent_batches = 2;
  max_queue_size = 4;
  active_batch_count = 0;
  engine = some doubling;
  running = true;
  next_task_id = 4;
}

abbrev busy_tasks : Tasks ℕ
busy_tasks p = if p == 7 then task_at 0 90 else if p == 6 then task_at 1 40 else task_at 1 90

abbrev busy_world : World ℕ
busy_world = record {
  scheduler = busy;
  tasks = busy_tasks;
  place = head;
  running_batches = [];
  lost = [];
  can_create = true;
  live = λ p. p == 5 || p == 6 || p == 7;
}

abbrev history : List (Event ℕ)
history = schedules 50 true ∷ schedules 50 false ∷ finishes 0 ∷ observes 7 ∷ schedules 51 true ∷ []

enqueue_refuses_example :
    (enqueue 50 8 busy busy_tasks ≡ (false, busy, busy_tasks))
    ↔ ((0 < 4) × (4 ≤ pending_count busy))
enqueue_refuses_example = enqueue_refuses 50 8 busy busy_tasks

enqueue_bound_example : pending_count (enqueue 50 8 busy busy_tasks).1 ≤ 4
unfolding pending_count
enqueue_bound_example = enqueue_bound 50 8 busy busy_tasks (omega arith) (omega arith)

enqueue_accepts_example :
    let (done, s', tasks') = enqueue 50 8 busy busy_tasks in
    (s'.queue_mid ≡ 5 ∷ 6 ∷ 8 ∷ [])
    × (pending_count s' ≡ pending_count busy + 1)
    × (s'.queue_sem ≡ 4)
    × (tasks' 8 ≡ record (task_at 1 90) { task_id = 4; arrival_time = 50 })
unfolding enqueue
enqueue_accepts_example = enqueue_accepts 50 8 busy busy_tasks mid 8 refl

collect_batch_lem_example :
    let (batch, s') = collect_batch busy in (batch ≡ 7 ∷ 5 ∷ []) × (waiting s' ≡ 6 ∷ [])
collect_batch_lem_example = collect_batch_lem busy

cleanup_expired_lem_example :
    let (s', tasks') = cleanup_expired 50 busy busy_tasks in
    (s' ≡ record busy { queue_high = 7 ∷ []; queue_mid = 5 ∷ []; queue_low = [] })
    × (tasks' 6 ≡ record (task_at 1 40) { timeout = true; completed = true })
unfolding expire
cleanup_expired_lem_example = cleanup_expired_lem 50 busy busy_tasks 6

execute_batch_lem_example :
    let (s', tasks') = execute_batch (7 ∷ 5 ∷ []) busy busy_tasks in
    (tasks' 5
      ≡ record (task_at 1 90) { output_data = 2 ∷ 4 ∷ []; success = true; completed = true })
    × ((tasks' 5).completed ≡ true)
    × (tasks' 6 ≡ busy_tasks 6)
    × (s'.active_batch_count ≡ 0)
    × (s'.queue_sem ≡ 4)
unfolding write_back to_input
execute_batch_lem_example =
    execute_batch_lem doubling (7 ∷ 5 ∷ []) busy busy_tasks 1 5 6 refl (omega arith) refl refl

busy-Slots : Slots (some doubling) busy_world
busy-Slots = record { engine_kept = refl; counted = refl; limited = omega arith }

run-Slots_example : Slots (some doubling) (run busy_world history)
run-Slots_example = run-Slots busy_world history busy-Slots

run-Owned_example : Owned 5 (run busy_world history)
run-Owned_example =
    run-Owned {engine = doubling} 5 busy_world history busy-Slots (omega arith)
      (inl (refl, refl, refl))

-- The history does what it is meant to do: the batch (7, 5) is done, 7 is observed, 6 has expired.
run-history :
    ((run busy_world history).live 7 ≡ false)
    × (((run busy_world history).tasks 5).output_data ≡ 2 ∷ 4 ∷ [])
    × (((run busy_world history).tasks 6).timeout ≡ true)
    × ((run busy_world history).scheduler.active_batch_count ≡ 0)
unfolding run step run_from after_head after_window take_post cleanup collect with_batch throttle
    submit_batch spawn to_head finish finish_at observe wait_check timedwait cleanup_expired clean
    expire mark_done collect_batch collect_from execute_batch write_results write_back to_input
    pending_count post
run-history = (refl, refl, refl, refl)

-- A thread that is not created: the batch (7, 5) and its slot stay.
run-lost :
    let w =
      run busy_world (lets_create false ∷ schedules 50 true ∷ schedules 50 false ∷ stops ∷ []) in
    (w.lost ≡ (7 ∷ 5 ∷ []) ∷ [])
    × (w.running_batches ≡ [])
    × (w.scheduler.active_batch_count ≡ 1)
    × (holds 5 w ≡ 1)
unfolding run step run_from after_head after_window take_post cleanup collect with_batch throttle
    submit_batch spawn to_head timedwait cleanup_expired clean expire mark_done collect_batch
    collect_from pending_count stop post
run-lost = (refl, refl, refl, refl)

abbrev ended_world : World ℕ
ended_world = record busy_world { place = stopped }

run-Stranded_example :
    let w' = run ended_world history in
    Stranded 5 w' × (w'.live 5 ≡ true) × ((w'.tasks 5).completed ≡ false)
run-Stranded_example =
    run-Stranded {engine = doubling} 5 ended_world history
      (record { engine_kept = refl; counted = refl; limited = omega arith }) (omega arith)
      (inl (refl, refl, refl)) (record { waits = refl; ended = refl })

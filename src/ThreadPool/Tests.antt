-- ===== src/ThreadPool/Tests.antt =====
-- The thread pool at concrete inputs, with room for two requests, and requests that are three flags.
use ai_inference_gateway.Prelude.{ℕ, ◌≡◌, ◌≢◌, refl, true, false, [], ◌∷◌, none, arith}
use ai_inference_gateway.ThreadPool.{
  ThreadPool, Connection, append, post_queuestat, wait_queuestat, take_request,
}
use ai_inference_gateway.ThreadPool.Queue.{IsConnection}
use ai_inference_gateway.ThreadPool.Steps.{
  World, step, appends, appends_p, posts, wakes, takes, run, IsSound, run-IsSound, woken_takes,
}

record Flags : Type 0 where
  state : ℕ
  improv : ℕ
  timer_flag : ℕ

-- Reads fail and writes do not.
abbrev flags : Connection Flags
flags = record {
  m_state = λ r. r.state;
  set_state = λ s r. record r { state = s };
  set_improv = λ r. record r { improv = 1 };
  set_timer_flag = λ r. record r { timer_flag = 1 };
  read_once = λ r. (false, r);
  write = λ r. (true, r);
  process = λ r. r;
}

flags-IsConnection : IsConnection flags (λ r. r.improv) (λ r. r.timer_flag)
flags-IsConnection = record {
  improv_set = λ r. refl;
  improv_kept = λ r. refl;
  improv_process = λ r. refl;
  timer_set = λ r. refl;
  timer_kept = λ r. refl;
  timer_process = λ r. refl;
}

abbrev idle : ThreadPool
idle = record { m_max_requests = 2; m_workqueue = []; m_queuestat = 0; m_actor_model = 1 }

abbrev fresh : ℕ → Flags
fresh p = record { state = 0; improv = 0; timer_flag = 0 }

abbrev start : World Flags
start = record {
  pool = idle;
  requests = fresh;
  to_post = 0;
  woken = 0;
  interrupted = 0;
  empty_rounds = 0;
  accepted = [];
  taken = [];
}

start-IsSound : IsSound start
start-IsSound = record {
  counted = refl;
  excused = omega arith;
  bounded = omega arith;
  ordered = refl;
}

run-IsSound_example : IsSound (
    run flags start (
      appends 7 1 ∷ appends_p none ∷ posts ∷ wakes false ∷ wakes true ∷ takes ∷ takes ∷ takes ∷ []))
run-IsSound_example =
    run-IsSound flags start
      (appends 7 1 ∷ appends_p none ∷ posts ∷ wakes false ∷ wakes true ∷ takes ∷ takes ∷ takes ∷ [])
      start-IsSound

-- A signal lets a worker look at an empty queue.
run-signal :
    let w = run flags start (wakes true ∷ takes ∷ []) in
    (w.empty_rounds ≡ 1) × (w.interrupted ≡ 1) × (w.woken ≡ 0)
unfolding run step take_request wait_queuestat
run-signal = (refl, refl, refl)

woken_takes_example :
    (take_request (run flags start (appends 7 1 ∷ posts ∷ wakes false ∷ [])).pool).0 ≢ none
unfolding run step append post_queuestat wait_queuestat
woken_takes_example =
    woken_takes flags start (appends 7 1 ∷ posts ∷ wakes false ∷ []) start-IsSound refl tt
      (omega arith)

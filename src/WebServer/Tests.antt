-- ===== src/WebServer/Tests.antt =====
-- Runs of webserver.cpp with connections that are three flags.
use ai_inference_gateway.Prelude.{
  update, codes, ℕ, ◌≡◌, refl, true, false, [], ◌∷◌, Option, none, some, arith,
}
use ai_inference_gateway.Prelude.Int.{pos}
use ai_inference_gateway.Timer.{new_timer_list}
use ai_inference_gateway.Timer.Chain.{Returns}
use ai_inference_gateway.ThreadPool.{serve_request, report, conclude}
use ai_inference_gateway.ThreadPool.Queue.{IsConnection}
use ai_inference_gateway.WebServer.{
  Server, Operations, Answers, Event, Flags, trig_mode, handle_event, event_loop, timer_handler,
  await, worker_close, accept_one,
}
use ai_inference_gateway.WebServer.Clients.{IsServing}
use ai_inference_gateway.WebServer.Loop.{
  IsKnown, listening, IsEnough, Reaches, begins, handles, handle_event-IsServing, Reaches-IsServing,
}
use ai_inference_gateway.Engine.Mock.{new_mock_engine}
use ai_inference_gateway.Engine.Onnx.{new_onnx_engine}
use ai_inference_gateway.WebServer.Setup.{
  Engines, uses_mock, is_ready, choose_engine, choose_engine-is_ready,
}
use ai_inference_gateway.WebServer.Wait.{await-serve_request, await-report}

record Conn : Type 0 where
  state : ℕ
  improv : ℕ
  timer_flag : ℕ

-- Reads and writes succeed.
abbrev ops : Operations Conn
ops = record {
  connection = record {
    m_state = λ r. r.state;
    set_state = λ s r. record r { state = s };
    set_improv = λ r. record r { improv = 1 };
    set_timer_flag = λ r. record r { timer_flag = 1 };
    read_once = λ r. (true, r);
    write = λ r. (true, r);
    process = λ r. r;
  };
  init = λ fd r. record { state = 0; improv = 0; timer_flag = 0 };
  improv = λ r. r.improv;
  timer_flag = λ r. r.timer_flag;
  clear_improv = λ r. record r { improv = 0 };
  clear_timer_flag = λ r. record r { timer_flag = 0 };
}

ops-IsConnection : IsConnection ops.connection ops.improv ops.timer_flag
ops-IsConnection = record {
  improv_set = λ r. refl;
  improv_kept = λ r. refl;
  improv_process = λ r. refl;
  timer_set = λ r. refl;
  timer_kept = λ r. refl;
  timer_process = λ r. refl;
}

-- Reads fail.
abbrev failing : Operations Conn
failing = record ops { connection = record (ops.connection) { read_once = λ r. (false, r) } }

failing-IsConnection : IsConnection failing.connection failing.improv failing.timer_flag
failing-IsConnection = record {
  improv_set = λ r. refl;
  improv_kept = λ r. refl;
  improv_process = λ r. refl;
  timer_set = λ r. refl;
  timer_kept = λ r. refl;
  timer_process = λ r. refl;
}

-- A server that waits at descriptor 3 for connections, with the pipe at 4 and room for two requests.
abbrev started : ℕ → ℕ → Server Conn
started actor_model queue = record {
  m_actormodel = actor_model;
  m_listenfd = 3;
  m_pipefd_0 = 4;
  m_listen_trigmode = 1;
  timers = record { nodes = λ p. none; head = 0; tail = 0 };
  users_timer = λ fd. record { sockfd = 0; timer = 0 };
  users = λ fd. record { state = 0; improv = 0; timer_flag = 0 };
  m_user_count = pos 0;
  m_pool = record {
    m_max_requests = queue;
    m_workqueue = [];
    m_queuestat = 0;
    m_actor_model = actor_model;
  };
  is_open = λ fd. false;
}

abbrev running : Flags
running = record { timeout = false; stop_server = false }

-- Two connections wait, at 7 and 8.
abbrev two_waiting : Answers Conn
two_waiting = record { waiting = (7, 100) ∷ (8, 200) ∷ []; signals = none; works = [] }

abbrev at_listenfd : Event
at_listenfd = record { fd = 3; is_hangup = false; is_in = true; is_out = false }

two_waiting-IsKnown : IsKnown (started 0 2) two_waiting at_listenfd
two_waiting-IsKnown = listening refl (
  record { closed = refl; below = omega arith; ne_null = ground arith; unused = refl },
  (ground arith, ground arith, tt),
  (record { closed = refl; below = omega arith; ne_null = ground arith; unused = refl }, tt, tt),
)

started-Reaches : Reaches ops 10 (started 0 2)
unfolding new_timer_list
started-Reaches = begins refl (λ fd. refl) refl

two_waiting-IsEnough : IsEnough 5 (started 0 2) two_waiting
two_waiting-IsEnough = record { users = 0; counted = refl; enough = omega arith }

handle_event-IsServing_example :
    Returns
      (handle_event ops 5 20 two_waiting at_listenfd running (started 0 2))
      (λ _ s'. IsServing s' 20)
handle_event-IsServing_example =
    handle_event-IsServing ops 5 10 20 two_waiting at_listenfd running (started 0 2)
      (Reaches-IsServing ops started-Reaches) refl two_waiting-IsKnown (omega arith)
      two_waiting-IsEnough

abbrev state_of : {A : Type 0} → Server Conn → Option (A × Server Conn) → Server Conn
state_of s r = elim r [ none ↦ s | some (a, s') ↦ s' ]

abbrev accepted : Server Conn
accepted =
    state_of (started 0 2) (handle_event ops 5 20 two_waiting at_listenfd running (started 0 2))

accepted-Reaches : Reaches ops 20 accepted
unfolding handle_event
accepted-Reaches =
    handles {rounds = 5} {a = two_waiting} {e = at_listenfd} running running started-Reaches refl
      two_waiting-IsKnown (omega arith) two_waiting-IsEnough refl

Reaches-IsServing_example : IsServing accepted 20
Reaches-IsServing_example = Reaches-IsServing ops accepted-Reaches

await-serve_request_example :
    Returns
      (await ops
        ((accepted.users_timer 7).timer)
        7
        (serve_request ops.connection 1 ∷ (λ c. c) ∷ [])
        accepted)
      (λ _ s'. IsServing s' 20 × (s'.is_open ≡ accepted.is_open))
unfolding handle_event
await-serve_request_example =
    await-serve_request ops 20 7 accepted ((λ c. c) ∷ []) ops-IsConnection
      (Reaches-IsServing ops accepted-Reaches) refl refl (omega arith)

await-report_example :
    let c : Conn = record { state = 0; improv = 1; timer_flag = 0 } in
    let s' = record accepted { users = update accepted.users 7 (record c { improv = 0 }) } in
    let late = conclude failing.connection true false (s'.users 7) in
    (await failing 100 7 ((λ c. (report failing.connection c).1) ∷ (λ c. c) ∷ []) accepted
      ≡ some (tt, s'))
    × (s'.is_open 7 ≡ true)
    × (late.improv ≡ 0)
    × (late.timer_flag ≡ 1)
unfolding handle_event report
await-report_example =
    await-report failing 100 7 accepted ((λ c. c) ∷ []) true failing-IsConnection refl refl refl
      refl (omega arith) (λ r. refl)

-- A timer that a worker has left behind closes the next connection of the same descriptor, ten seconds
-- before its time.
left_behind :
    let s1 = state_of (started 0 2) (accept_one ops 5 10 100 7 (started 0 2)) in
    let s2 = worker_close 7 s1 in
    let s3 = state_of s2 (accept_one ops 5 20 300 7 s2) in
    let s4 = state_of s3 (timer_handler 5 25 s3) in
    (s3.is_open 7 ≡ true)
    × (s4.is_open 7 ≡ false)
    × (s4.timers.nodes 300 ≡ some (record { expire = 35; user_data = 7; prev = 0; next = 0 }))
unfolding accept_one worker_close timer_handler
left_behind = (refl, refl, refl)

-- A run of the loop: two connections, a request, silence, and the signals that end it.
abbrev quiet : Answers Conn
quiet = record { waiting = []; signals = none; works = [] }

abbrev signalled : ℕ → Answers Conn
signalled sig = record { waiting = []; signals = some (sig ∷ []); works = [] }

abbrev readable : ℕ → Event
readable fd = record { fd = fd; is_hangup = false; is_in = true; is_out = false }

run-event_loop :
    let s = state_of (started 0 2) (
      event_loop ops 5
        ((10, (two_waiting, readable 3) ∷ [])
          ∷ (20, (quiet, readable 7) ∷ [])
          ∷ (30, (signalled 14, readable 4) ∷ [])
          ∷ (31, (signalled 15, readable 4) ∷ [])
          ∷ (40, (quiet, readable 7) ∷ [])
          ∷ [])
        running
        (started 0 2)) in
    (s.is_open 7 ≡ true) × (s.is_open 8 ≡ false) × (s.m_user_count ≡ pos 1)
unfolding event_loop
run-event_loop = (refl, refl, refl)

trig_mode-unknown :
    trig_mode 4 (record { m_listen_trigmode = 0; m_conn_trigmode = 1 })
    ≡ record { m_listen_trigmode = 0; m_conn_trigmode = 1 }
unfolding trig_mode
trig_mode-unknown = refl

-- Engines before `thread_pool`, and a model file that ONNX Runtime refuses.
abbrev engines : Engines
unfolding new_mock_engine new_onnx_engine
engines = record {
  m_engine = uses_mock;
  m_mock_engine = new_mock_engine;
  m_onnx_engine = new_onnx_engine;
}

choose_engine-is_ready_example :
    is_ready
      (choose_engine (λ path. none) (some (codes "onnx")) (some (codes "m.onnx")) (pos 50) engines)
    ≡ true
choose_engine-is_ready_example =
    choose_engine-is_ready (λ path. none) (some (codes "onnx")) (some (codes "m.onnx")) (pos 50)
      engines

choose_engine-fallback :
    (choose_engine
      (λ path. none)
      (some (codes "onnx"))
      (some (codes "m.onnx"))
      (pos 50)
      engines).m_engine
    ≡ uses_mock
unfolding choose_engine
choose_engine-fallback = refl

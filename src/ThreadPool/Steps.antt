-- ===== src/ThreadPool/Steps.antt =====
-- The threads of threadpool/threadpool.h as steps: the main thread appends and then posts, a worker
-- wakes and then takes a request and serves it. The steps of different threads alternate freely.
-- What a worker does with its request is one step here; WebServer/Wait has its two halves apart.
use ai_inference_gateway.Prelude.{
  List-cases, true, false, refl, ℕ, ◌+◌, ◌-◌, ◌≤◌, ◌<◌, ◌≡◌, ◌≢◌, inl, inr, ap, sym, ◌∙◌, Bool,
  List, [], ◌∷◌, ◌++◌, append_assoc, Option, none, some, length, length-append, arith, Bool-cases,
  ◌==◌, if◌then◌else◌,
}
use ai_inference_gateway.ThreadPool.{
  ThreadPool, Connection, append, append_p, serve, take_request, post_queuestat, wait_queuestat,
}

-- `to_post` is how many requests are in the queue with their post still to come, and `woken` how many
-- workers are past their wait and not yet at the queue. `interrupted` counts the waits that a signal
-- ended, and `empty_rounds` the rounds in which a worker found the queue empty. `accepted` and `taken`
-- are the requests that were put into the queue and taken from it, in order.
pub record World (T : Type 0) : Type 0 where
  pub pool : ThreadPool
  pub requests : ℕ → T
  pub to_post : ℕ
  pub woken : ℕ
  pub interrupted : ℕ
  pub empty_rounds : ℕ
  pub accepted : List (Option ℕ)
  pub taken : List (Option ℕ)

pub data Event : Type 0 where
  appends : ℕ → ℕ → Event
  appends_p : Option ℕ → Event
  wakes : Bool → Event
  posts takes : Event

module _ {T : Type 0} (ops : Connection T) where
  abbrev appended : Option ℕ → Bool → World T → World T
  appended request done w =
      if done
      then record w { to_post = w.to_post + 1; accepted = w.accepted ++ request ∷ [] }
      else w

  abbrev take_and_serve : Option (Option ℕ) × ThreadPool → World T → World T
  take_and_serve (none, pool) w = record w {
    pool = pool;
    woken = w.woken - 1;
    empty_rounds = w.empty_rounds + 1;
  }
  take_and_serve (some request, pool) w = record w {
    pool = pool;
    woken = w.woken - 1;
    taken = w.taken ++ request ∷ [];
    requests = serve ops pool.m_actor_model request w.requests;
  }

  -- An event that cannot happen changes nothing.
  unfoldable pub step : World T → Event → World T
  unfolding append append_p serve take_request post_queuestat wait_queuestat
  step w (appends p state) =
      let (done, pool, requests) = append ops p state w.pool w.requests in
      appended (some p) done (record w { pool = pool; requests = requests })
  step w (appends_p request) =
      let (done, pool) = append_p request w.pool in appended request done (record w { pool = pool })
  step w posts =
      if w.to_post == 0
      then w
      else record w { pool = post_queuestat w.pool; to_post = w.to_post - 1 }
  step w (wakes by_signal) =
      let (done, pool) = wait_queuestat by_signal w.pool in
      if done
      then record w {
        pool = pool;
        woken = w.woken + 1;
        interrupted = if by_signal then w.interrupted + 1 else w.interrupted;
      }
      else w
  step w takes = if w.woken == 0 then w else take_and_serve (take_request w.pool) w

  unfoldable pub run : World T → List Event → World T
  run w [] = w
  run w (e ∷ es) = run (step w e) es

-- Each request of the queue has its post, its wake-up or its worker, and what there is beyond that came
-- from a signal; a worker has found the queue empty at most as often as a signal has ended a wait; the
-- queue is bounded, and holds what was accepted and not yet taken, in order.
pub record IsSound {T : Type 0} (w : World T) : Type 0 where
  pub counted :
      w.to_post + w.pool.m_queuestat + w.woken + w.empty_rounds
      ≡ length w.pool.m_workqueue + w.interrupted
  pub excused : w.empty_rounds ≤ w.interrupted
  pub bounded : length w.pool.m_workqueue ≤ w.pool.m_max_requests
  pub ordered : w.accepted ≡ w.taken ++ w.pool.m_workqueue

pub step-IsSound :
    {T : Type 0} (ops : Connection T) (w : World T) (e : Event) → IsSound w → IsSound (step ops w e)
unfolding step
step-IsSound ops w (appends p state) v = ground (
  arith,
  length-append w.pool.m_workqueue (some p ∷ []),
  append_assoc w.taken w.pool.m_workqueue (some p ∷ []),
)
step-IsSound ops w (appends_p request) v = ground (
  arith,
  length-append w.pool.m_workqueue (request ∷ []),
  append_assoc w.taken w.pool.m_workqueue (request ∷ []),
)
step-IsSound ops w posts v = ground arith
step-IsSound ops w (wakes true) v = ground arith
step-IsSound ops w (wakes false) v = ground arith
step-IsSound ops w takes v = elim (Bool-cases (w.woken == 0)) [
  | inl e ↦ rw e v
  | inr e ↦ elim (List-cases w.pool.m_workqueue) [
    | inl empty ↦
        rw (e, empty)
          (record {
            counted = ground (arith, e, v.counted, ap length empty);
            excused = ground (arith, e, v.counted, v.excused, ap length empty);
            bounded = ground (arith, v.bounded, ap length empty);
            ordered = v.ordered ∙ ap (λ l. w.taken ++ l) empty;
          })
    | inr (request, rest, q) ↦
        rw (e, q)
          (record {
            counted = ground (arith, e, v.counted, ap length q);
            excused = v.excused;
            bounded = ground (arith, v.bounded, ap length q);
            ordered =
                v.ordered
                ∙ ap (λ l. w.taken ++ l) q
                ∙ sym (append_assoc w.taken (request ∷ []) rest);
          })
  ]
]

-- From a state that is sound, whatever order the threads' steps come in and whichever waits a signal
-- ends: the queue stays bounded, requests are taken in the order they were accepted in, every request of
-- the queue has its post, its wake-up or its worker, and a worker has found the queue empty at most as
-- often as a signal has ended a wait.
pub run-IsSound :
    {T : Type 0} (ops : Connection T) (w : World T) (es : List Event)
    → IsSound w
    → IsSound (run ops w es)
unfolding run
run-IsSound ops w [] v = v
run-IsSound ops w (e ∷ es) v = run-IsSound ops (step ops w e) es (step-IsSound ops w e v)

-- Histories in which no signal ends a wait.
abbrev pub NoSignal : List Event → Type 0
NoSignal [] = Unit
NoSignal (wakes true ∷ es) = ⊥
NoSignal (wakes false ∷ es) = NoSignal es
NoSignal (posts ∷ es) = NoSignal es
NoSignal (takes ∷ es) = NoSignal es
NoSignal (appends p state ∷ es) = NoSignal es
NoSignal (appends_p request ∷ es) = NoSignal es

run-interrupted :
    {T : Type 0} (ops : Connection T) (w : World T) (es : List Event)
    → NoSignal es
    → (run ops w es).interrupted ≡ w.interrupted
unfolding run step wait_queuestat
run-interrupted ops w [] n = refl
run-interrupted ops w (wakes true ∷ es) n = absurd n
run-interrupted ops w (wakes false ∷ es) n =
    run-interrupted ops (step ops w (wakes false)) es n ∙ ground arith
run-interrupted ops w (posts ∷ es) n = run-interrupted ops (step ops w posts) es n ∙ ground arith
run-interrupted ops w (takes ∷ es) n =
    run-interrupted ops (step ops w takes) es n ∙ elim (Bool-cases (w.woken == 0)) [
      | inl e ↦ rw e refl
      | inr e ↦ elim (List-cases w.pool.m_workqueue) [
        | inl empty ↦ rw (e, empty) refl
        | inr (request, rest, q) ↦ rw (e, q) refl
      ]
    ]
run-interrupted ops w (appends p state ∷ es) n =
    run-interrupted ops (step ops w (appends p state)) es n ∙ ground arith
run-interrupted ops w (appends_p request ∷ es) n =
    run-interrupted ops (step ops w (appends_p request)) es n ∙ ground arith

-- From a sound state, in any history in which no wait was or is ended by a signal, a worker that has been
-- woken finds a request: the test for an empty queue does not succeed.
pub woken_takes :
    {T : Type 0} (ops : Connection T) (w : World T) (es : List Event)
    → IsSound w
    → w.interrupted ≡ 0
    → NoSignal es
    → 0 < (run ops w es).woken
    → (take_request (run ops w es).pool).0 ≢ none
unfolding take_request
woken_takes ops w es v none_yet n some_woken =
    let v' = run-IsSound ops w es v in
    let never : (run ops w es).interrupted ≡ 0 = run-interrupted ops w es n ∙ none_yet in
    elim (List-cases (run ops w es).pool.m_workqueue) [
      | inl empty ↦ absurd (omega (arith, v'.counted, never, ap length empty))
      | inr (request, rest, q) ↦ rw (q, take_request) (λ e. cc)
    ]

-- ===== src/ThreadPool.antt =====
-- threadpool/threadpool.h. A request is its address, which may be null in the queue; what it holds
-- stands in a store, and the operations that the template's argument must have are a record. The
-- threads themselves are the operating system's: `new_threadpool` takes it that they start.
pub mod Queue
pub mod Steps
mod Tests
use ai_inference_gateway.Prelude.{
  ℕ, zero, suc, ◌+◌, ◌-◌, Bool, true, false, List, [], ◌∷◌, ◌++◌, Option, none, some, if◌then◌else◌,
  leb, ltb, ◌==◌, update, length,
}
use ai_inference_gateway.Prelude.Int.{ℤ, pos, negsuc, leb_ℤ}
use ai_inference_gateway.Lock.{post, timedwait}

-- What `threadpool<T>` calls of `T`.
pub record Connection (T : Type 0) : Type 0 where
  pub m_state : T → ℕ
  pub set_state : ℕ → T → T
  pub set_improv : T → T
  pub set_timer_flag : T → T
  pub read_once : T → Bool × T
  pub write : T → Bool × T
  pub process : T → T

pub record ThreadPool : Type 0 where
  pub m_max_requests : ℕ
  pub m_workqueue : List (Option ℕ)
  pub m_queuestat : ℕ
  pub m_actor_model : ℕ

-- The constructor: `none` is its exception.
unfoldable pub new_threadpool : ℕ → ℤ → ℤ → Option ThreadPool
new_threadpool actor_model thread_number (negsuc n) = none
new_threadpool actor_model thread_number (pos zero) = none
new_threadpool actor_model thread_number (pos (suc n)) =
    if leb_ℤ thread_number (pos 0)
    then none
    else some (record {
      m_max_requests = suc n;
      m_workqueue = [];
      m_queuestat = 0;
      m_actor_model = actor_model;
    })

-- The locked section of `append_p`; `m_queuestat.post()` follows it if the request was accepted.
unfoldable pub append_p : Option ℕ → ThreadPool → Bool × ThreadPool
append_p request pool =
    if leb pool.m_max_requests (length pool.m_workqueue)
    then (false, pool)
    else (true, record pool { m_workqueue = pool.m_workqueue ++ request ∷ [] })

-- `m_queuestat.post()`
unfoldable pub post_queuestat : ThreadPool → ThreadPool
unfolding post
post_queuestat pool = record pool { m_queuestat = post pool.m_queuestat }

-- `m_queuestat.wait();`: false while the worker sleeps. `run` drops the result, so that a wait which a
-- signal interrupts (EINTR) lets the worker go on with the value as it was.
unfoldable pub wait_queuestat : Bool → ThreadPool → Bool × ThreadPool
unfolding timedwait
wait_queuestat interrupted pool =
    if interrupted
    then (true, pool)
    else (let (woken, value) = timedwait pool.m_queuestat in
        (woken, record pool { m_queuestat = value }))

-- The locked section of `run`: `none` where the queue is empty.
unfoldable pub take_request : ThreadPool → Option (Option ℕ) × ThreadPool
take_request pool = elim (pool.m_workqueue) [
  | [] ↦ (none, pool)
  | request ∷ rest ↦ (some request, record pool { m_workqueue = rest })
]

module _ {T : Type 0} (ops : Connection T) where
  -- The locked section of `append`.
  unfoldable pub append : ℕ → ℕ → ThreadPool → (ℕ → T) → Bool × ThreadPool × (ℕ → T)
  append request state pool requests =
      if leb pool.m_max_requests (length pool.m_workqueue) then (false, pool, requests) else (
        true,
        record pool { m_workqueue = pool.m_workqueue ++ some request ∷ [] },
        update requests request (ops.set_state state (requests request)),
      )

  -- The reactor's half of `run` up to `improv = 1`, which the main thread waits for: whether the
  -- transfer was done, and the request then. No lock holds this and what follows together, so that the
  -- main thread may look in between.
  unfoldable pub report : T → Bool × T
  report r =
      let (done, r') = if ops.m_state r == 0 then ops.read_once r else ops.write r in
      (done, ops.set_improv r')

  -- What follows `improv = 1`; `reading` is the test of `m_state`, made before the transfer.
  unfoldable pub conclude : Bool → Bool → T → T
  conclude reading done r =
      if done then (if reading then ops.process r else r) else ops.set_timer_flag r

  -- What `run` does with a request, by the event model: 1 is the reactor's.
  unfoldable pub serve_request : ℕ → T → T
  unfolding report conclude
  serve_request actor_model r =
      if actor_model == 1
      then (let (done, r') = report r in conclude (ops.m_state r == 0) done r')
      else ops.process r

  -- `if(!request) continue;` and the rest of the round.
  unfoldable pub serve : ℕ → Option ℕ → (ℕ → T) → ℕ → T
  serve actor_model none requests = requests
  serve actor_model (some p) requests = update requests p (serve_request actor_model (requests p))

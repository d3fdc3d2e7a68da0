-- ===== src/ThreadPool/Queue.antt =====
-- The operations of the thread pool's queue (threadpool/threadpool.h), and a round of a worker.
use ai_inference_gateway.Prelude.{
  ℕ, ◌≤◌, ◌<◌, ◌≡◌, ◌≢◌, ◌⊎◌, inl, inr, refl, Bool, true, false, [], ◌∷◌, ◌++◌, some, length, arith,
  ◌∙◌, Bool-cases, ◌==◌, leb, if◌then◌else◌,
}
use ai_inference_gateway.ThreadPool.{ThreadPool, Connection, append, serve_request}

-- A full queue refuses a request and leaves the pool and every request as they were; a queue with
-- room takes it at its end, with the state set, and touches no other request.
pub append_lem :
    {T : Type 0} (ops : Connection T) (p state : ℕ) (pool : ThreadPool) (requests : ℕ → T)
    → let (done, pool', requests') = append ops p state pool requests in
      ((pool.m_max_requests ≤ length pool.m_workqueue)
        × (done ≡ false)
        × (pool' ≡ pool)
        × (requests' ≡ requests))
      ⊎ ((length pool.m_workqueue < pool.m_max_requests)
          × (done ≡ true)
          × (pool'.m_workqueue ≡ pool.m_workqueue ++ some p ∷ [])
          × (pool'.m_queuestat ≡ pool.m_queuestat)
          × (requests' p ≡ ops.set_state state (requests p))
          × ((q : ℕ) → q ≢ p → requests' q ≡ requests q))
unfolding append
append_lem ops p state pool requests =
    elim (Bool-cases (leb pool.m_max_requests (length pool.m_workqueue))) [
      | inl e ↦ inl (rw (e, append) (ground (arith, e), refl, refl, refl))
      | inr e ↦ inr (
          rw (e, append)
            (ground (arith, e), refl, refl, refl, ground arith, λ q ne. ground (arith, ne)))
    ]

-- The laws of a request's flags that the reactor's side relies on.
pub record IsConnection {T : Type 0} (ops : Connection T) (improv timer_flag : T → ℕ) : Type 0 where
  pub improv_set : (r : T) → improv (ops.set_improv r) ≡ 1
  pub improv_kept : (r : T) → improv (ops.set_timer_flag r) ≡ improv r
  pub improv_process : (r : T) → improv (ops.process r) ≡ improv r
  pub timer_set : (r : T) → timer_flag (ops.set_timer_flag r) ≡ 1
  pub timer_kept : (r : T) → timer_flag (ops.set_improv r) ≡ timer_flag r
  pub timer_process : (r : T) → timer_flag (ops.process r) ≡ timer_flag r

-- The input or output that a worker does for the reactor.
abbrev pub transfer : {T : Type 0} → Connection T → T → Bool × T
transfer ops r = if ops.m_state r == 0 then ops.read_once r else ops.write r

-- For requests whose flags keep the laws, in the reactor's model a worker always reports a request as
-- done, and asks for the connection to be closed if the transfer failed, and otherwise leaves the flag as
-- the transfer left it.
pub serve_request_lem :
    {T : Type 0} (ops : Connection T) (improv timer_flag : T → ℕ) (r : T)
    → IsConnection ops improv timer_flag
    → let (done, r') = transfer ops r in
      (improv (serve_request ops 1 r) ≡ 1)
      × (timer_flag (serve_request ops 1 r) ≡ (if done then timer_flag r' else 1))
unfolding serve_request
serve_request_lem ops improv timer_flag r v = elim (Bool-cases (ops.m_state r == 0)) [
  | inl reads ↦ elim (Bool-cases (ops.read_once r).0) [
    | inl done ↦
        rw (reads, done) (v.improv_process _ ∙ v.improv_set _, v.timer_process _ ∙ v.timer_kept _)
    | inr failed ↦ rw (reads, failed) (v.improv_kept _ ∙ v.improv_set _, v.timer_set _)
  ]
  | inr writes ↦ elim (Bool-cases (ops.write r).0) [
    | inl done ↦ rw (writes, done) (v.improv_set _, v.timer_kept _)
    | inr failed ↦ rw (writes, failed) (v.improv_kept _ ∙ v.improv_set _, v.timer_set _)
  ]
]

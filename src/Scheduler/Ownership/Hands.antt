-- ===== src/Scheduler/Ownership/Hands.antt =====
-- What the execution threads and `enqueue` (batch_scheduler.cpp) do to who holds a task.
use ai_inference_gateway.Prelude.{
  ℕ, suc, ◌≤◌, ◌≡◌, true, List, [], ◌∷◌, arith, map, ltb, ◌&&◌, count, count-append, if◌then◌else◌,
  ◌==◌, some, get_elem?,
}
use ai_inference_gateway.Common.{InferenceEngine}
use ai_inference_gateway.Task.{Tasks}
use ai_inference_gateway.Scheduler.{BatchScheduler, enqueue, execute_batch, to_input}
use ai_inference_gateway.Scheduler.Execute.{write_results_done, write_results_other}
use ai_inference_gateway.Scheduler.System.{World, finish}
use ai_inference_gateway.Scheduler.Ownership.{count_all-remove_at, queued, holds, Settles, done_at}

module _ {F : Type 0} (p : ℕ) where
  execute_batch_done :
      (b : List ℕ) (s : BatchScheduler F) (tasks : Tasks F) {e : InferenceEngine F}
      → s.engine ≡ some e
      → (((execute_batch b s tasks).1 p).completed
          ≡ (if ltb 0 (count p b) then true else (tasks p).completed))
        × (queued p (execute_batch b s tasks).0 ≡ queued p s)
  unfolding execute_batch
  execute_batch_done [] s tasks h = ground arith
  execute_batch_done (t ∷ b) s tasks {e} h =
      let results = e.infer_batch (map (λ x. to_input (tasks x)) (t ∷ b)) in
      ground (
        arith,
        write_results_done (t ∷ b) results tasks p,
        write_results_other (t ∷ b) results tasks p,
      )

  pub finish-Settles :
      (k : ℕ) (b : List ℕ) (w : World F) {e : InferenceEngine F}
      → w.scheduler.engine ≡ some e
      → get_elem? w.running_batches k ≡ some b
      → holds p w ≤ 1
      → Settles (holds p w) (done_at p w) (holds p (finish k b w)) (done_at p (finish k b w))
  unfolding finish
  finish-Settles k b w he hk h = ground (
    arith,
    execute_batch_done b w.scheduler w.tasks he,
    count_all-remove_at p k w.running_batches b hk,
  )

  pub enqueue_holds :
      (now task : ℕ) (s : BatchScheduler F) (tasks : Tasks F)
      → let (done, s', tasks') = enqueue now task s tasks in
        (queued p s' ≡ (if done && task == p then suc (queued p s) else queued p s))
        × ((tasks' p).completed ≡ (tasks p).completed)
  unfolding enqueue
  enqueue_holds now task s tasks = ground (
    arith,
    count-append p s.queue_high (task ∷ []),
    count-append p s.queue_mid (task ∷ []),
    count-append p s.queue_low (task ∷ []),
  )

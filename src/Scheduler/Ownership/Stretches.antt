-- ===== src/Scheduler/Ownership/Stretches.antt =====
-- What each stretch of `run` (batch_scheduler.cpp) does to a task: it leaves it held, or settles it.
use ai_inference_gateway.Prelude.{
  ℕ, ◌+◌, ◌≤◌, ◌≡◌, refl, ap, Bool, true, List, [], ◌∷◌, arith, ltb, count, count-append,
  if◌then◌else◌, update, take, drop, take-append-drop,
}
use ai_inference_gateway.Task.{Tasks, expire}
use ai_inference_gateway.Scheduler.{BatchScheduler, clean, collect_batch, expire_all}
use ai_inference_gateway.Scheduler.Queues.{waiting, collect_batch_lem}
use ai_inference_gateway.Scheduler.Expiry.{clean_queue, clean_tasks, is_fresh, cleanup_expired_lem}
use ai_inference_gateway.Scheduler.System.{
  World, Place, head, window, throttled, stopped, run_from, after_head, after_window, throttle,
  with_batch, collect, cleanup, take_post, to_head, spawn, submit_batch,
}
use ai_inference_gateway.Scheduler.Ownership.{
  count_all, count_all-append, count-keep, queued, count-waiting, holds, Settles, done_at,
}

module _ {F : Type 0} (p : ℕ) where
  -- The places that hold the task when the scheduler thread has `batch` in its hands.
  abbrev in_hand : List ℕ → World F → ℕ
  in_hand batch w =
      queued p w.scheduler + count p batch + count_all p w.running_batches + count_all p w.lost

  clean-Settles :
      (now : ℕ) (q : List ℕ) (tasks : Tasks F)
      → count p q ≤ 1
      → Settles
          (count p q)
          (tasks p).completed
          (count p (clean now q tasks).0)
          ((clean now q tasks).1 p).completed
  unfolding expire
  clean-Settles now q tasks h =
      rw (clean_queue now q tasks, clean_tasks now q tasks p)
        (ground (arith, count-keep p (is_fresh now tasks) q))

  cleanup-Settles :
      (now : ℕ) (w : World F) (batch : List ℕ)
      → in_hand batch w ≤ 1
      → Settles
          (in_hand batch w)
          (done_at p w)
          (in_hand batch (cleanup now w))
          (done_at p (cleanup now w))
  unfolding cleanup expire
  cleanup-Settles now w batch h =
      let (s, t) = cleanup_expired_lem now w.scheduler w.tasks p in
      ground (
        arith,
        s,
        t,
        count-waiting p w.scheduler,
        count-keep p (is_fresh now w.tasks) w.scheduler.queue_high,
        count-keep p (is_fresh now w.tasks) w.scheduler.queue_mid,
        count-keep p (is_fresh now w.tasks) w.scheduler.queue_low,
      )

  spawn-holds :
      (batch : List ℕ) (w : World F)
      → (holds p (spawn batch w) ≡ in_hand batch w) × (done_at p (spawn batch w) ≡ done_at p w)
  unfolding spawn
  spawn-holds [] w = ground arith
  spawn-holds (t ∷ batch) w = ground (
    arith,
    count_all-append p w.running_batches ((t ∷ batch) ∷ []),
    count_all-append p w.lost ((t ∷ batch) ∷ []),
  )

  submit_batch-Settles :
      (now : ℕ) (batch : List ℕ) (w : World F)
      → in_hand batch w ≤ 1
      → Settles
          (in_hand batch w)
          (done_at p w)
          (holds p (submit_batch now batch w))
          (done_at p (submit_batch now batch w))
  unfolding submit_batch
  submit_batch-Settles now batch w h = ground (
    arith,
    clean-Settles now batch w.tasks,
    spawn-holds (clean now batch w.tasks).0 (record w { tasks = (clean now batch w.tasks).1 }),
  )

  expire_all_done :
      (batch : List ℕ) (tasks : Tasks F)
      → (expire_all batch tasks p).completed
        ≡ (if ltb 0 (count p batch) then true else (tasks p).completed)
  unfolding expire_all expire
  expire_all_done [] tasks = refl
  expire_all_done (t ∷ batch) tasks =
      ground (arith, expire_all_done batch (update tasks t (expire (tasks t))))

  throttle-Settles :
      (now : ℕ) (batch : List ℕ) (w : World F)
      → in_hand batch w ≤ 1
      → Settles
          (in_hand batch w)
          (done_at p w)
          (holds p (throttle now batch w))
          (done_at p (throttle now batch w))
  unfolding throttle
  throttle-Settles now batch w h =
      ground (arith, submit_batch-Settles now batch w h, expire_all_done batch w.tasks)

  with_batch-Settles :
      (now : ℕ) (batch : List ℕ) (w : World F)
      → in_hand batch w ≤ 1
      → Settles
          (in_hand batch w)
          (done_at p w)
          (holds p (with_batch now batch w))
          (done_at p (with_batch now batch w))
  unfolding with_batch to_head
  with_batch-Settles now [] w h = ground arith
  with_batch-Settles now (t ∷ batch) w h = throttle-Settles now (t ∷ batch) w h

  collect_holds :
      (s : BatchScheduler F)
      → count p (collect_batch s).0 + queued p (collect_batch s).1 ≡ queued p s
  collect_holds s =
      let (b, r) = collect_batch_lem s in
      omega (
        arith,
        ap (count p) b,
        ap (count p) r,
        ap (count p) (take-append-drop s.max_batch_size (waiting s)),
        count-append p (take s.max_batch_size (waiting s)) (drop s.max_batch_size (waiting s)),
        count-waiting p s,
        count-waiting p (collect_batch s).1,
      )

  collect-Settles :
      (now : ℕ) (w : World F)
      → in_hand [] w ≤ 1
      → Settles (in_hand [] w) (done_at p w) (holds p (collect now w)) (done_at p (collect now w))
  unfolding collect
  collect-Settles now w h = ground (
    arith,
    collect_holds w.scheduler,
    with_batch-Settles now (collect_batch w.scheduler).0
        (record w { scheduler = (collect_batch w.scheduler).1 }),
  )

  after_head-Settles :
      (now : ℕ) (w : World F)
      → in_hand [] w ≤ 1
      → Settles
          (in_hand [] w)
          (done_at p w)
          (holds p (after_head now w))
          (done_at p (after_head now w))
  unfolding after_head
  after_head-Settles now w h =
      let cleaned = cleanup-Settles now w [] h in
      ground (arith, cleaned, collect-Settles now (cleanup now w))

  after_window-Settles :
      (now : ℕ) (w : World F)
      → in_hand [] w ≤ 1
      → Settles
          (in_hand [] w)
          (done_at p w)
          (holds p (after_window now w))
          (done_at p (after_window now w))
  unfolding after_window
  after_window-Settles now w h =
      let cleaned = cleanup-Settles now w [] h in
      ground (arith, cleaned, collect-Settles now (cleanup now w))

  pub run_from-Settles :
      (now : ℕ) (posted : Bool) (place : Place) (w : World F)
      → w.place ≡ place
      → holds p w ≤ 1
      → Settles
          (holds p w)
          (done_at p w)
          (holds p (run_from now posted place w))
          (done_at p (run_from now posted place w))
  unfolding run_from take_post
  run_from-Settles now posted head w e h =
      ground (arith, after_head-Settles now (take_post posted w))
  run_from-Settles now posted window w e h = ground (arith, after_window-Settles now w)
  run_from-Settles now posted (throttled batch) w e h =
      ground (arith, throttle-Settles now batch (take_post posted w))
  run_from-Settles now posted stopped w e h = ground arith

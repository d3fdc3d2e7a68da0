-- ===== src/Scheduler/Ownership.antt =====
-- Who holds a task between `enqueue` and `mark_done` (batch_scheduler.cpp): a queue, the batch of a
-- throttled scheduler thread, a running batch, or a batch that has no thread; and when a step leaves a task's
-- holding right.
pub mod Stretches
pub mod Hands
use ai_inference_gateway.Prelude.{
  ℕ, zero, suc, ◌+◌, ◌≤◌, ◌≡◌, refl, ap, ◌⊎◌, Bool, true, List, [], ◌∷◌, ◌++◌, arith, map, ltb,
  ◌&&◌, count, count-append, if◌then◌else◌, ◌==◌, update, some, get_elem?, keep, take, drop,
  take-append-drop,
}
use ai_inference_gateway.Common.{InferenceEngine}
use ai_inference_gateway.Task.{Tasks, expire}
use ai_inference_gateway.Scheduler.{
  BatchScheduler, enqueue, clean, collect_batch, execute_batch, expire_all, to_input,
}
use ai_inference_gateway.Scheduler.Queues.{waiting, collect_batch_lem}
use ai_inference_gateway.Scheduler.Expiry.{clean_queue, clean_tasks, is_fresh, cleanup_expired_lem}
use ai_inference_gateway.Scheduler.Execute.{write_results_done, write_results_other}
use ai_inference_gateway.Scheduler.System.{
  World, Place, head, window, throttled, stopped, run_from, after_head, after_window, throttle,
  with_batch, collect, cleanup, take_post, finish, remove_at, to_head, spawn, submit_batch,
}

abbrev pub held : Place → List ℕ
held (throttled batch) = batch
held head = []
held window = []
held stopped = []

abbrev pub count_all : ℕ → List (List ℕ) → ℕ
count_all p [] = 0
count_all p (b ∷ bs) = count p b + count_all p bs

pub count_all-append :
    (p : ℕ) (bs cs : List (List ℕ)) → count_all p (bs ++ cs) ≡ count_all p bs + count_all p cs
count_all-append p [] cs = omega arith
count_all-append p (b ∷ bs) cs = omega (arith, count_all-append p bs cs)

pub count_all-remove_at :
    (p k : ℕ) (bs : List (List ℕ)) (b : List ℕ)
    → get_elem? bs k ≡ some b
    → count_all p (remove_at k bs) + count p b ≡ count_all p bs
count_all-remove_at p k [] b e = absurd (ground arith)
count_all-remove_at p zero (x ∷ bs) b e = ground arith
count_all-remove_at p (suc k) (x ∷ bs) b e = omega (arith, count_all-remove_at p k bs b e)

pub count-keep :
    (p : ℕ) (f : ℕ → Bool) (q : List ℕ) → count p (keep f q) ≡ (if f p then count p q else 0)
count-keep p f [] = ground arith
count-keep p f (x ∷ q) = ground (arith, count-keep p f q)

-- How many places outside the running batches hold the task at `p`, and how many in all.
abbrev pub queued : {F : Type 0} → ℕ → BatchScheduler F → ℕ
queued p s = count p s.queue_high + count p s.queue_mid + count p s.queue_low

pub count-waiting : {F : Type 0} (p : ℕ) (s : BatchScheduler F) → count p (waiting s) ≡ queued p s
count-waiting p s = omega (
  arith,
  count-append p s.queue_high (s.queue_mid ++ s.queue_low),
  count-append p s.queue_mid s.queue_low,
)

abbrev pub holds : {F : Type 0} → ℕ → World F → ℕ
holds p w =
    queued p w.scheduler
    + count p (held w.place)
    + count_all p w.running_batches
    + count_all p w.lost

-- A stretch leaves a task where it is held and not done, or takes it out and marks it done.
abbrev pub Settles : ℕ → Bool → ℕ → Bool → Type 0
Settles h c h' c' = ((h' ≡ h) × (c' ≡ c)) ⊎ ((h ≡ 1) × (h' ≡ 0) × (c' ≡ true))

pub Settles-trans :
    (h h₁ h₂ : ℕ) (c c₁ c₂ : Bool) → Settles h c h₁ c₁ → Settles h₁ c₁ h₂ c₂ → Settles h c h₂ c₂
Settles-trans h h₁ h₂ c c₁ c₂ a b = ground arith

abbrev pub done_at : {F : Type 0} → ℕ → World F → Bool
done_at p w = (w.tasks p).completed

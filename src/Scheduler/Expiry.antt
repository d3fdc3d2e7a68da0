-- ===== src/Scheduler/Expiry.antt =====
-- `cleanup_expired` and the filter before a batch is submitted (batch_scheduler.cpp): which tasks
-- leave a queue, and what is written to them.
use ai_inference_gateway.Prelude.{
  ℕ, ◌≡◌, refl, ◌∙◌, ap, inl, inr, Bool, List, [], ◌∷◌, ◌++◌, arith, keep, ltb, not, ◌&&◌, count,
  count-append, Bool-cases, if◌then◌else◌, update,
}
use mathlib.Core.Path.{fun_ext}
use ai_inference_gateway.Task.{InferenceTask, Tasks, expire}
use ai_inference_gateway.Scheduler.{BatchScheduler, is_expired, clean, cleanup_expired}
use ai_inference_gateway.Scheduler.Queues.{waiting}

module _ {F : Type 0} (now : ℕ) where
  -- Marking a task leaves its deadline, so its being expired does not change.
  is_expired-expire :
      (tasks : Tasks F) (t p : ℕ)
      → is_expired now (update tasks t (expire (tasks t)) p) ≡ is_expired now (tasks p)
  unfolding expire
  is_expired-expire tasks t p = ground arith

  abbrev pub is_fresh : Tasks F → ℕ → Bool
  is_fresh tasks t = not (is_expired now (tasks t))

  is_fresh-expire :
      (tasks : Tasks F) (t : ℕ) → is_fresh (update tasks t (expire (tasks t))) ≡ is_fresh tasks
  is_fresh-expire tasks t = fun_ext (λ p. ap not (is_expired-expire tasks t p))

  pub clean_queue : (q : List ℕ) (tasks : Tasks F) → (clean now q tasks).0 ≡ keep (is_fresh tasks) q
  unfolding clean
  clean_queue [] tasks = refl
  clean_queue (t ∷ q) tasks = elim (Bool-cases (is_expired now (tasks t))) [
    | inl old ↦
        rw (old, clean)
          (clean_queue q (update tasks t (expire (tasks t)))
            ∙ ap (λ f. keep f q) (is_fresh-expire tasks t))
    | inr fresh ↦ rw (fresh, clean) (ap (◌∷◌ t) (clean_queue q tasks))
  ]

  -- What `clean` leaves of the task at `p`.
  abbrev pub after_clean : List ℕ → Tasks F → ℕ → InferenceTask F
  after_clean q tasks p =
      if ltb 0 (count p q) && is_expired now (tasks p) then expire (tasks p) else tasks p

  pub clean_tasks :
      (q : List ℕ) (tasks : Tasks F) (p : ℕ) → (clean now q tasks).1 p ≡ after_clean q tasks p
  unfolding clean expire
  clean_tasks [] tasks p = refl
  clean_tasks (t ∷ q) tasks p = elim (Bool-cases (is_expired now (tasks t))) [
    | inl old ↦
        rw (old, clean) (ground (arith, clean_tasks q (update tasks t (expire (tasks t))) p))
    | inr fresh ↦ rw (fresh, clean) (ground (arith, clean_tasks q tasks p))
  ]

  pub is_fresh-clean :
      (q : List ℕ) (tasks : Tasks F) → is_fresh (clean now q tasks).1 ≡ is_fresh tasks
  unfolding expire
  is_fresh-clean q tasks = fun_ext (λ p. rw (clean_tasks q tasks p) (ground arith))

-- `cleanup_expired` takes exactly the expired tasks out of the three queues, keeps the others in
-- their order, marks exactly those that it took out as timed out and done, and changes nothing else
-- of the scheduler.
pub cleanup_expired_lem :
    {F : Type 0} (now : ℕ) (s : BatchScheduler F) (tasks : Tasks F) (p : ℕ)
    → let (s', tasks') = cleanup_expired now s tasks in
      (s' ≡ record s {
        queue_high = keep (is_fresh now tasks) s.queue_high;
        queue_mid = keep (is_fresh now tasks) s.queue_mid;
        queue_low = keep (is_fresh now tasks) s.queue_low;
      })
      × (tasks' p ≡ after_clean now (waiting s) tasks p)
unfolding cleanup_expired expire
cleanup_expired_lem now s tasks p = (
  simp (clean_queue, is_fresh-clean),
  ground (
    arith,
    clean_tasks now s.queue_high tasks p,
    clean_tasks now s.queue_mid (clean now s.queue_high tasks).1 p,
    clean_tasks now s.queue_low (clean now s.queue_mid (clean now s.queue_high tasks).1).1 p,
    count-append p s.queue_high (s.queue_mid ++ s.queue_low),
    count-append p s.queue_mid s.queue_low,
  ),
)

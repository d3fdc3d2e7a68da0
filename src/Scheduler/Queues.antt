-- ===== src/Scheduler/Queues.antt =====
-- `enqueue` and `collect_batch` of batch_scheduler.cpp: what is taken, where it goes, and what a
-- batch is made of.
use ai_inference_gateway.Prelude.{
  ℕ, ◌+◌, ◌-◌, ◌≤◌, ◌<◌, ◌≡◌, inl, inr, Bool, true, false, List, [], ◌∷◌, ◌++◌, append-nil,
  append_assoc, arith, length, take, drop, length-append, ltb, Bool-cases, take-nil, ◌==◌,
  if◌then◌else◌, ◌↔◌, ◌≢◌, drop-nil, take-append, drop-append, take-cons, sub-length-take,
  sub-length-append, drop-cons, ltb→lt, ltb→ge,
}
use native.Mathlib.Nat.{sub-zero}
use ai_inference_gateway.Task.{Tasks}
use ai_inference_gateway.Scheduler.{
  BatchScheduler, enqueue, pending_count, collect_from, collect_batch,
}

module _ {F : Type 0} where
  -- The waiting tasks in the order in which they are to be served.
  abbrev pub waiting : BatchScheduler F → List ℕ
  waiting s = s.queue_high ++ (s.queue_mid ++ s.queue_low)

  pub pending_count-length : (s : BatchScheduler F) → pending_count s ≡ length (waiting s)
  unfolding pending_count
  pending_count-length s = omega (
    arith,
    length-append s.queue_high (s.queue_mid ++ s.queue_low),
    length-append s.queue_mid s.queue_low,
  )

collect_from_lem :
    (max : ℕ) (batch q : List ℕ)
    → collect_from max batch q ≡ (batch ++ take (max - length batch) q, drop (max - length batch) q)
unfolding collect_from
collect_from_lem max batch [] = rw (take-nil, ◌==◌, if◌then◌else◌, ◌↔◌, ◌≢◌, drop-nil, append-nil)
collect_from_lem max batch (t ∷ q) = elim (Bool-cases (ltb (length batch) max)) [
  | inl room ↦
      let more : length batch < max = ltb→lt _ _ room in
      rw (room, collect_from)
        (ground (
          arith,
          collect_from_lem max (batch ++ t ∷ []) q,
          take-cons (max - length batch) t q,
          drop-cons (max - length batch) t q,
          append_assoc batch (t ∷ []) (take (max - length batch - 1) q),
          length-append batch (t ∷ []),
        ))
  | inr full ↦
      let none_left : max - length batch ≡ 0 = omega (arith, ltb→ge (length batch) max full) in
      rw (full, collect_from, none_left) (rw append-nil)
]

ruleset pieces =
    (take-append, drop-append, append_assoc, sub-length-take, sub-length-append, sub-zero)

-- A batch is the first `max_batch_size` waiting tasks in serving order: higher priorities first, and
-- in each queue the order of arrival. What is left waiting is the rest, in the same order.
pub collect_batch_lem :
    {F : Type 0} (s : BatchScheduler F)
    → let (batch, s') = collect_batch s in
      (batch ≡ take s.max_batch_size (waiting s)) × (waiting s' ≡ drop s.max_batch_size (waiting s))
unfolding collect_batch
collect_batch_lem s = (simp (collect_from_lem, pieces), simp (collect_from_lem, pieces))

-- The three queues by name: priority 0 is high, 2 is low, and any other is in the middle.
pub data Level : Type 0 where
  high mid low : Level

abbrev pub level_of : ℕ → Level
level_of priority = if priority == 0 then high else if priority == 2 then low else mid

abbrev pub same_level : Level → Level → Bool
same_level high high = true
same_level mid mid = true
same_level low low = true
same_level _ _ = false

module _ {F : Type 0} where
  abbrev pub queue_of : BatchScheduler F → Level → List ℕ
  queue_of s high = s.queue_high
  queue_of s mid = s.queue_mid
  queue_of s low = s.queue_low

  module _ (now task : ℕ) (s : BatchScheduler F) (tasks : Tasks F) where
    -- `enqueue` refuses, and then changes nothing, exactly when there is a limit and it is reached.
    pub enqueue_refuses :
        (enqueue now task s tasks ≡ (false, s, tasks))
        ↔ ((0 < s.max_queue_size) × (s.max_queue_size ≤ pending_count s))
    unfolding enqueue
    enqueue_refuses = ground arith

    -- A limit that holds before a call of `enqueue` holds after it.
    pub enqueue_bound :
        0 < s.max_queue_size
        → pending_count s ≤ s.max_queue_size
        → pending_count (enqueue now task s tasks).1 ≤ s.max_queue_size
    unfolding enqueue
    enqueue_bound some_limit within = ground (
      arith,
      length-append s.queue_high (task ∷ []),
      length-append s.queue_mid (task ∷ []),
      length-append s.queue_low (task ∷ []),
    )

    -- An accepted task is the last of the queue of its priority, the other queues stay, the count of
    -- waiting tasks and the semaphore go up by one, the task gets the next id and its arrival time,
    -- and no other task changes.
    pub enqueue_accepts :
        (c : Level) (p : ℕ)
        → (enqueue now task s tasks).0 ≡ true
        → let (done, s', tasks') = enqueue now task s tasks in
          (queue_of s' c ≡ (
            if same_level (level_of (tasks task).priority) c
            then queue_of s c ++ task ∷ []
            else queue_of s c))
          × (pending_count s' ≡ pending_count s + 1)
          × (s'.queue_sem ≡ s.queue_sem + 1)
          × (tasks' p ≡ (
              if task == p
              then record (tasks task) { task_id = s.next_task_id; arrival_time = now }
              else tasks p))
    unfolding enqueue
    enqueue_accepts c p taken = ground (
      arith,
      length-append s.queue_high (task ∷ []),
      length-append s.queue_mid (task ∷ []),
      length-append s.queue_low (task ∷ []),
    )

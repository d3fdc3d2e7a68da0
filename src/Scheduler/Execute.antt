-- ===== src/Scheduler/Execute.antt =====
-- `execute_batch` of batch_scheduler.cpp: what is written to each task of a batch.
use ai_inference_gateway.Prelude.{
  ℕ, zero, suc, false, codes, if◌then◌else◌, ◌+◌, ◌-◌, ◌≤◌, ◌<◌, ◌≡◌, refl, ◌⊎◌, inl, inr, true,
  List, [], ◌∷◌, arith, map, count, update, Option, none, some, get_elem?, count-get_elem?, map,
}
use ai_inference_gateway.Common.{InferenceResult, InferenceEngine}
use ai_inference_gateway.Task.{InferenceTask, Tasks, mark_done}
use ai_inference_gateway.Scheduler.{
  BatchScheduler, write_results, write_back, to_input, execute_batch,
}

module _ {F : Type 0} where
  -- Whatever the engine returns, the task is done, and the worker's fields of it are kept.
  pub write_back_done :
      (t : InferenceTask F) (r : Option (InferenceResult F)) → (write_back t r).completed ≡ true
  unfolding write_back
  write_back_done t none = refl
  write_back_done t (some r) = refl

  -- What a task of a batch should hold afterwards: the answer of the engine that stands for it, or the
  -- mismatch error where there is none.
  abbrev pub answered : InferenceTask F → Option (InferenceResult F) → InferenceTask F
  answered t none = record t {
    success = false;
    error_msg = codes "batch result mismatch";
    completed = true;
  }
  answered t (some r) =
      if r.success
      then record t { output_data = r.values; success = true; completed = true }
      else record t { success = false; error_msg = r.error_msg; completed = true }

  write_back_lem :
      (t : InferenceTask F) (r : Option (InferenceResult F)) → write_back t r ≡ answered t r
  unfolding write_back mark_done
  write_back_lem t none = refl
  write_back_lem t (some r) = ground arith

  pub write_results_other :
      (batch : List ℕ) (results : List (InferenceResult F)) (tasks : Tasks F) (p : ℕ)
      → count p batch ≡ 0
      → write_results batch results tasks p ≡ tasks p
  unfolding write_results
  write_results_other [] results tasks p h = refl
  write_results_other (t ∷ batch) [] tasks p h =
      ground (arith, write_results_other batch [] (update tasks t (write_back (tasks t) none)) p)
  write_results_other (t ∷ batch) (r ∷ results) tasks p h =
      ground (
        arith,
        write_results_other batch results (update tasks t (write_back (tasks t) (some r))) p,
      )

  -- Every task of the batch is done afterwards.
  pub write_results_done :
      (batch : List ℕ) (results : List (InferenceResult F)) (tasks : Tasks F) (p : ℕ)
      → (0 < count p batch) ⊎ ((tasks p).completed ≡ true)
      → (write_results batch results tasks p).completed ≡ true
  unfolding write_results
  write_results_done [] results tasks p (inl h) = absurd (omega arith)
  write_results_done [] results tasks p (inr h) = h
  write_results_done (t ∷ batch) [] tasks p h =
      write_results_done batch [] (update tasks t (write_back (tasks t) none)) p
        (ground (arith, write_back_done (tasks t) none))
  write_results_done (t ∷ batch) (r ∷ results) tasks p h =
      write_results_done batch results (update tasks t (write_back (tasks t) (some r))) p
        (ground (arith, write_back_done (tasks t) (some r)))

  -- The i-th task of a batch without repetition gets the i-th result, whatever stands around it.
  pub write_results_at :
      (batch : List ℕ) (results : List (InferenceResult F)) (tasks : Tasks F) (i p : ℕ)
      → count p batch ≤ 1
      → get_elem? batch i ≡ some p
      → write_results batch results tasks p ≡ write_back (tasks p) (get_elem? results i)
  unfolding write_results
  write_results_at [] results tasks i p h e = cc
  write_results_at (t ∷ batch) [] tasks zero p h e =
      ground (arith, write_results_other batch [] (update tasks t (write_back (tasks t) none)) p)
  write_results_at (t ∷ batch) (r ∷ results) tasks zero p h e =
      ground (
        arith,
        write_results_other batch results (update tasks t (write_back (tasks t) (some r))) p,
      )
  write_results_at (t ∷ batch) [] tasks (suc i) p h e = ground (
    arith,
    count-get_elem? p batch i e,
    write_results_at batch [] (update tasks t (write_back (tasks t) none)) i p,
  )
  write_results_at (t ∷ batch) (r ∷ results) tasks (suc i) p h e = ground (
    arith,
    count-get_elem? p batch i e,
    write_results_at batch results (update tasks t (write_back (tasks t) (some r))) i p,
  )

-- `execute_batch`, with an engine and a batch that is not empty and repeats no task: the i-th task is
-- done and holds what the engine's i-th result on the batch's inputs says, the output and a success or
-- the error's text and a failure, or a failure with the mismatch error where the engine returned too few,
-- its other fields kept; no task outside the batch changes; the slot is given back and the scheduler is
-- woken.
pub execute_batch_lem :
    {F : Type 0} (e : InferenceEngine F) (batch : List ℕ) (s : BatchScheduler F) (tasks : Tasks F)
    (i p q : ℕ)
    → s.engine ≡ some e
    → count p batch ≤ 1
    → get_elem? batch i ≡ some p
    → count q batch ≡ 0
    → let (s', tasks') = execute_batch batch s tasks in
      (tasks' p
        ≡ answered (tasks p) (
            get_elem?
              (e.infer_batch (
                map
                  (λ t. record {
                    model_name = (tasks t).model_name;
                    values = (tasks t).input_data;
                    shape = [];
                  })
                  batch))
              i))
      × ((tasks' p).completed ≡ true)
      × (tasks' q ≡ tasks q)
      × (s'.active_batch_count ≡ s.active_batch_count - 1)
      × (s'.queue_sem ≡ s.queue_sem + 1)
unfolding execute_batch to_input
execute_batch_lem e [] s tasks i p q he hp hi hq = cc
execute_batch_lem e (t ∷ batch) s tasks i p q he hp hi hq =
    let results = e.infer_batch (map (λ t. to_input (tasks t)) (t ∷ batch)) in
    ground (
      arith,
      write_results_at (t ∷ batch) results tasks i p hp hi,
      write_back_done (tasks p) (get_elem? results i),
      write_back_lem (tasks p) (get_elem? results i),
      write_results_other (t ∷ batch) results tasks q hq,
    )

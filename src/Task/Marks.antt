-- ===== src/Task/Marks.antt =====
-- `mark_done` of scheduler/inference_task.h beside the wait of the worker that owns the task, in the
-- steps that their locks leave: the locked section of `mark_done`, its signal, and the worker's return.
use ai_inference_gateway.Prelude.{
  ◌≡◌, refl, Bool, true, false, List, [], ◌∷◌, none, some, if◌then◌else◌, not, ◌||◌,
}
use ai_inference_gateway.Task.{InferenceTask, mark_done, wait_check, wait_wake}

-- `present` says whether the worker is still in `do_request`, whose frame the task stands in;
-- `to_signal` whether a `mark_done` is past its section and before its signal; and `dangled` whether
-- `mark_done` has touched the task after its end.
pub record Shared (F : Type 0) : Type 0 where
  pub task : InferenceTask F
  pub present : Bool
  pub to_signal : Bool
  pub dangled : Bool

pub data Step : Type 0 where
  marks signals returns gives_up : Step

module _ {F : Type 0} where
  -- A step that cannot happen changes nothing.
  unfoldable pub step : Shared F → Step → Shared F
  unfolding mark_done wait_check wait_wake
  step s marks = record s {
    task = mark_done s.task;
    to_signal = true;
    dangled = s.dangled || not s.present;
  }
  step s signals =
      if s.to_signal
      then record s { to_signal = false; dangled = s.dangled || not s.present }
      else s
  step s returns = elim (wait_check s.task) [ none ↦ s | some r ↦ record s { present = false } ]
  step s gives_up =
      if s.present then record s { task = (wait_wake true s.task).0; present = false } else s

  unfoldable pub run : Shared F → List Step → Shared F
  run s [] = s
  run s (e ∷ es) = run (step s e) es

  -- A worker that is there when its task is marked, and that returns at once since the task is completed,
  -- is gone when the signal comes, without any time limit.
  mark_done_dangles :
      (t : InferenceTask F)
      → let s : Shared F = record {
        task = t;
        present = true;
        to_signal = false;
        dangled = false;
      } in
        (run s (marks ∷ returns ∷ signals ∷ [])).dangled ≡ true
  unfolding run step mark_done wait_check
  mark_done_dangles t = refl

  -- A worker that returns after the signal is not met by it.
  mark_done_safe :
      (t : InferenceTask F)
      → let s : Shared F = record {
        task = t;
        present = true;
        to_signal = false;
        dangled = false;
      } in
        let s' = run s (marks ∷ signals ∷ returns ∷ []) in
        (s'.dangled ≡ false) × (s'.present ≡ false)
  unfolding run step mark_done wait_check
  mark_done_safe t = (refl, refl)

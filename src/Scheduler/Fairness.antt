-- ===== src/Scheduler/Fairness.antt =====
-- Which task runs next.
use deus_os_stm.Common.{ℕ, zero, suc, ◌+◌, ◌%◌, List, [], ◌∷◌, get_or, ◌≡◌, ◌≤◌, ◌<◌, arith}
use deus_os_stm.Scheduler.State.{Task, TaskState, task_count, no_task, priority_lowest, blank_task}
use deus_os_stm.Scheduler.Select.{select_next_ready}

-- The choice `k` among the tasks, after the task with index `after`.
pub record IsChoice (tasks : List Task) (after k : ℕ) : Type 0 where
  pub bounded : k ≤ no_task
  pub runnable : k < task_count → (get_or tasks k blank_task).state ≡ TaskState.ready
  pub least :
      (j : ℕ)
      → j < task_count
      → (get_or tasks j blank_task).state ≡ TaskState.ready
      → (k < task_count)
        × ((get_or tasks k blank_task).priority ≤ (get_or tasks j blank_task).priority)
  pub in_turn :
      (get_or tasks 0 blank_task).state ≡ TaskState.ready
      → (get_or tasks 1 blank_task).state ≡ TaskState.ready
      → (get_or tasks 0 blank_task).priority ≡ (get_or tasks 1 blank_task).priority
      → k ≡ (after + 1) % task_count

least_at :
    (a b : Task) (after j : ℕ)
    → after < task_count
    → a.priority ≤ priority_lowest
    → b.priority ≤ priority_lowest
    → j < task_count
    → (get_or (a ∷ b ∷ []) j blank_task).state ≡ TaskState.ready
    → (select_next_ready (a ∷ b ∷ []) after < task_count)
      × ((get_or (a ∷ b ∷ []) (select_next_ready (a ∷ b ∷ []) after) blank_task).priority
          ≤ (get_or (a ∷ b ∷ []) j blank_task).priority)
unfolding select_next_ready
least_at a b zero zero h p q l r = ground arith
least_at a b zero (suc zero) h p q l r = ground arith
least_at a b (suc zero) zero h p q l r = ground arith
least_at a b (suc zero) (suc zero) h p q l r = ground arith
least_at a b _ _ h p q l r = absurd (omega arith)

-- For two tasks with priorities up to 255 and the index of one of them: a ready task is chosen, if
-- there is one; none that is ready has a higher priority (a lower number); and of two ready tasks
-- of the same priority the one is chosen whose turn it is.
pub select_next_ready-IsChoice :
    (a b : Task) (after : ℕ)
    → after < task_count
    → a.priority ≤ priority_lowest
    → b.priority ≤ priority_lowest
    → IsChoice (a ∷ b ∷ []) after (select_next_ready (a ∷ b ∷ []) after)
unfolding select_next_ready
select_next_ready-IsChoice a b zero h p q = record {
  bounded = ground arith;
  runnable = ground arith;
  least = λ j l r. least_at a b 0 j h p q l r;
  in_turn = ground arith;
}
select_next_ready-IsChoice a b (suc zero) h p q = record {
  bounded = ground arith;
  runnable = ground arith;
  least = λ j l r. least_at a b 1 j h p q l r;
  in_turn = ground arith;
}
select_next_ready-IsChoice a b (suc (suc _)) h p q = absurd (omega arith)

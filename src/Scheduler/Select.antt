-- ===== src/Scheduler/Select.antt =====
-- `scheduler_select_next_ready` and `scheduler_has_blocked_tasks`.
use deus_os_stm.Common.{
  ℕ, zero, suc, ◌+◌, ◌%◌, Bool, false, ◌&&◌, ◌||◌, List, [], ◌∷◌, get_or, ltb, if◌then◌else◌,
}
use deus_os_stm.Scheduler.State.{
  Task, Scheduler, task_count, no_task, priority_lowest, blank_task, is_ready, is_blocked,
}

-- What the loop carries: the selected index and its priority.
abbrev pub Selected : Type 0
Selected = ℕ × ℕ

unfoldable pub select_round : List Task → ℕ → Selected → Selected
select_round tasks index (selected, priority) =
    if is_ready (get_or tasks index blank_task).state
      && ltb (get_or tasks index blank_task).priority priority
    then (index, (get_or tasks index blank_task).priority)
    else (selected, priority)

-- The rounds that are left, and the offset of the next.
unfoldable pub select_from : List Task → ℕ → ℕ → ℕ → Selected → Selected
unfolding select_round
select_from tasks after zero offset best = best
select_from tasks after (suc rounds) offset best =
    select_from tasks after rounds (offset + 1)
      (select_round tasks ((after + offset) % task_count) best)

-- `scheduler_select_next_ready`
unfoldable pub select_next_ready : List Task → ℕ → ℕ
unfolding select_from
select_next_ready tasks after =
    (select_from tasks after task_count 1 (no_task, priority_lowest + 1)).0

-- `scheduler_find_next_ready`
abbrev pub find_next_ready : Scheduler → ℕ → ℕ
find_next_ready s after = select_next_ready s.tasks after

-- `scheduler_has_blocked_tasks`
unfoldable pub has_blocked : List Task → Bool
has_blocked [] = false
has_blocked (t ∷ tasks) = is_blocked t.state || has_blocked tasks

abbrev pub has_blocked_tasks : Scheduler → Bool
has_blocked_tasks s = has_blocked s.tasks

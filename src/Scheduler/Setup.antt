-- ===== src/Scheduler/Setup.antt =====
-- `scheduler_init`, `scheduler_task_priority_set`, `scheduler_task_stack_bind` and
-- `scheduler_task_prepare`. `true` is the result 1.
use deus_os_stm.Common.{
  ℕ, zero, suc, ◌+◌, ◌-◌, ◌*◌, ◌%◌, Bool, true, false, ◌||◌, not, map, ltb, leb, ◌==◌, ◌!=◌,
  if◌then◌else◌, u32_mod,
}
use deus_os_stm.Scheduler.State.{
  Task, TaskState, Scheduler, Memory, poke, task_count, no_task, priority_default, priority_lowest,
  initial_frame_words, stack_fill, task_at, with_task, cleared, is_unused,
}

-- The loop of `scheduler_init` over one task.
abbrev pub reset_task : Task → Task
reset_task t = record t {
  saved_sp = 0;
  stack_low = 0;
  stack_high = 0;
  stack_words = 0;
  state = TaskState.unused;
  priority = priority_default;
  wait_events = 0;
  wake_events = 0;
  deadline_ms = 0;
  deadline_active = false;
}

unfoldable pub init : Scheduler → Bool × Scheduler
init s = if s.active then (false, s) else (
  true,
  record s {
    tasks = map reset_task s.tasks;
    current_index = no_task;
    active = false;
    completed_count = 0;
    target_count = 0;
    run_result = 0;
    preempt_enabled = false;
    preempt_switch_count = 0;
    pending_events = 0;
    idle_wait_count = 0;
  },
)

unfoldable pub task_priority_set : Scheduler → ℕ → ℕ → Bool × Scheduler
task_priority_set s index priority =
    if leb task_count index || ltb priority_lowest priority || s.active
    then (false, s)
    else (true, with_task s index (record (task_at s index) { priority = priority }))

-- `stack_low[0 .. n) = value`
unfoldable pub fill_words : Memory → ℕ → ℕ → ℕ → Memory
fill_words m at value zero = m
fill_words m at value (suc n) = poke (fill_words m at value n) (at + 4 * n) value

unfoldable pub task_stack_bind : Scheduler → ℕ → ℕ → ℕ → Bool × Scheduler
task_stack_bind s index stack_low stack_words =
    let stack_high = (stack_low + 4 * stack_words) % u32_mod in
    if leb task_count index || stack_low == 0 || ltb stack_words initial_frame_words || s.active
    then (false, s)
    else if stack_low % 8 != 0 || stack_high % 8 != 0
    then (false, s)
    else if not (is_unused (task_at s index).state)
    then (false, s)
    else (
      true,
      record (with_task s index (record (cleared (task_at s index)) {
        stack_low = stack_low;
        stack_high = stack_high;
        saved_sp = stack_high;
        stack_words = stack_words;
      })) { memory = fill_words s.memory stack_low stack_fill stack_words },
    )

-- The words of an initial frame: r4 to r11, then r0, r1, r2, r3, r12, lr, pc and xPSR. `trap` is the
-- address of `scheduler_task_return_trap`.
abbrev pub initial_frame : Memory → ℕ → ℕ → ℕ → ℕ → Memory
initial_frame m frame entry argument trap =
    poke
      (poke
        (poke (fill_words (poke (fill_words m frame 0 8) (frame + 32) argument) (frame + 36) 0 4)
          (frame + 52) trap)
        (frame + 56) (entry - entry % 2))
      (frame + 60) 0x01000000

unfoldable pub task_prepare : Scheduler → ℕ → ℕ → ℕ → ℕ → Bool × Scheduler
task_prepare s index entry argument trap =
    let t = task_at s index in
    let frame = (t.stack_high + u32_mod - 4 * initial_frame_words) % u32_mod in
    if leb task_count index || entry == 0 || s.active
    then (false, s)
    else if t.stack_low == 0
        || t.stack_high == 0
        || ltb t.stack_words initial_frame_words
        || t.stack_high % 8 != 0
    then (false, s)
    else (
      true,
      record (with_task s index
          (record (cleared t) { saved_sp = frame; state = TaskState.ready })) {
            memory = initial_frame s.memory frame entry argument trap;
          },
    )

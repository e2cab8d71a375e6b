-- ===== src/Scheduler/Dispatch.antt =====
-- `scheduler_svc_dispatch` and `scheduler_pendsv_dispatch`. Each returns the stack pointer to go on
-- with, 0 for the host, and the new state.
use deus_os_stm.Common.{
  ℕ, ◌+◌, ◌-◌, ◌*◌, ◌%◌, true, false, ◌||◌, not, ltb, leb, ◌==◌, ◌!=◌, if◌then◌else◌, bit_and,
  u32_mod,
}
use deus_os_stm.Scheduler.State.{
  Task, TaskState, Scheduler, poke, word, task_count, no_task, max_timeout_ms, task_at, with_task,
  cleared, frame_pointer_valid, clear_pending_pendsv, abort_run, stack_record, decode_svc_number,
}
use deus_os_stm.Scheduler.Select.{find_next_ready, has_blocked_tasks}
use deus_os_stm.Scheduler.Events.{complement}

abbrev pub Dispatched : Type 0
Dispatched = ℕ × Scheduler

abbrev pub svc_yield : ℕ
svc_yield = 1

abbrev pub svc_exit : ℕ
svc_exit = 2

abbrev pub svc_wait_events : ℕ
svc_wait_events = 3

abbrev pub svc_timed_block : ℕ
svc_timed_block = 4

abbrev pub aborted : Scheduler → Dispatched
aborted s = (0, abort_run s)

-- The end of both dispatchers: the selected task runs, if its frame is sound.
abbrev pub run_task : Scheduler → ℕ → Dispatched
run_task s next =
    if not (frame_pointer_valid (task_at s next) (task_at s next).saved_sp)
    then aborted s
    else ((task_at s next).saved_sp, record s { current_index = next })

-- `scheduler_svc_dispatch` for an SVC of the host.
unfoldable pub dispatch_host : Scheduler → ℕ → Dispatched
dispatch_host s saved_sp =
    let next = find_next_ready s (task_count - 1) in
    if not s.active || s.current_index != no_task || saved_sp != 0
    then aborted s
    else if leb task_count next
    then aborted s
    else run_task s next

-- No task is ready: the run ends, or waits for an event, or is aborted.
abbrev pub park : Scheduler → Scheduler
park s =
    let t = record (clear_pending_pendsv s) { current_index = no_task } in
    if t.completed_count == t.target_count
    then record t { preempt_enabled = false; active = false; run_result = 1 }
    else if not (has_blocked_tasks t)
    then abort_run t
    else t

-- The task that made the call is ready, done or blocked: another is selected.
unfoldable pub switch_task : Scheduler → Dispatched
switch_task s =
    let next = find_next_ready s s.current_index in
    if leb task_count next then (0, park s) else run_task s next

-- The stack pointer of the current task is stored and its stack measured.
abbrev pub saved : Scheduler → ℕ → Scheduler
saved s sp =
    stack_record
      (with_task s s.current_index (record (task_at s s.current_index) { saved_sp = sp }))
      s.current_index

abbrev pub update_current : Scheduler → (Task → Task) → Scheduler
update_current s f = with_task s s.current_index (f (task_at s s.current_index))

-- A call that returns to its task at once, with a result in the stacked r0.
abbrev pub returns : Scheduler → ℕ → ℕ → Dispatched
returns s sp result = (sp, record s { memory = poke s.memory (sp + 4 * 8) result })

unfoldable pub exit_task : Scheduler → Dispatched
exit_task s =
    switch_task (record (update_current s (λ t. record (cleared t) { state = TaskState.done })) {
      completed_count = (s.completed_count + 1) % u32_mod;
    })

-- The wait is over at once: the matched events are taken from the pending ones.
abbrev pub matched_now : Scheduler → ℕ → ℕ → Dispatched
matched_now s sp matched =
    returns
      (record (update_current s (λ t. record (cleared t) { wake_events = matched })) {
        pending_events = bit_and s.pending_events (complement matched);
      })
      sp matched

-- SVC 3, after the state is saved.
unfoldable pub wait_events : Scheduler → ℕ → ℕ → Dispatched
wait_events s sp requested =
    let matched = bit_and s.pending_events requested in
    if matched != 0
    then matched_now s sp matched
    else switch_task (
        update_current s
          (λ t. record (cleared t) { wait_events = requested; state = TaskState.blocked }))

-- SVC 4, after the state is saved.
unfoldable pub timed_block : Scheduler → ℕ → ℕ → ℕ → Dispatched
timed_block s sp requested timeout_ms =
    let matched = if requested != 0 then bit_and s.pending_events requested else 0 in
    if matched != 0
    then matched_now s sp matched
    else if timeout_ms == 0
    then returns (update_current s cleared) sp (if requested == 0 then 1 else 0)
    else if ltb max_timeout_ms timeout_ms
    then returns (update_current s cleared) sp 0
    else switch_task (
        update_current s (λ t. record t {
          wait_events = requested;
          wake_events = 0;
          deadline_ms = (s.now_ms + timeout_ms) % u32_mod;
          deadline_active = true;
          state = TaskState.blocked;
        }))

-- The service that the task asked for. The arguments are the stacked r0 and r1.
unfoldable pub serve : Scheduler → ℕ → ℕ → Dispatched
serve s sp number =
    let r0 = word s.memory sp 8 in
    let r1 = word s.memory sp 9 in
    if number == svc_yield
    then switch_task (saved s sp)
    else if number == svc_exit
    then exit_task (saved s sp)
    else if number == svc_wait_events
    then if r0 == 0 then aborted s else wait_events (saved s sp) sp r0
    else if number == svc_timed_block
    then timed_block (saved s sp) sp r0 r1
    else aborted s

-- `scheduler_svc_dispatch` for an SVC of a task.
unfoldable pub dispatch_task : Scheduler → ℕ → Dispatched
dispatch_task s saved_sp =
    if not s.active || leb task_count s.current_index || saved_sp == 0
    then aborted s
    else if not (frame_pointer_valid (task_at s s.current_index) saved_sp)
    then aborted s
    else serve s saved_sp (decode_svc_number s saved_sp)

-- Bit 2 of EXC_RETURN says whose stack was in use.
unfoldable pub svc_dispatch : Scheduler → ℕ → ℕ → Dispatched
svc_dispatch s saved_sp exc_return =
    if bit_and exc_return 4 == 0 then dispatch_host s saved_sp else dispatch_task s saved_sp

abbrev pub counted : Scheduler → ℕ → Scheduler
counted s next =
    if next != s.current_index
    then record s { preempt_switch_count = (s.preempt_switch_count + 1) % u32_mod }
    else s

-- The task that was interrupted may go on, or another one runs.
unfoldable pub preempt : Scheduler → Dispatched
preempt s =
    let next = find_next_ready s s.current_index in
    if leb task_count next
    then aborted s
    else if not (frame_pointer_valid (task_at s next) (task_at s next).saved_sp)
    then aborted s
    else ((task_at s next).saved_sp, record (counted s next) { current_index = next })

-- `scheduler_pendsv_dispatch`
unfoldable pub pendsv_dispatch : Scheduler → ℕ → Dispatched
pendsv_dispatch s saved_sp =
    if not s.active || not s.preempt_enabled || leb task_count s.current_index || saved_sp == 0
    then aborted s
    else if not (frame_pointer_valid (task_at s s.current_index) saved_sp)
    then aborted s
    else preempt (saved s saved_sp)

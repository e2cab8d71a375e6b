-- ===== src/Scheduler/Examples.antt =====
-- Two ready tasks of one priority, and a deadline across the wrap of the counter.
use deus_os_stm.Common.{
  false, refl, bit_or, ◌+◌, ◌%◌, ◌≤◌, ◌≡◌, ◌↔◌, true, [], ◌∷◌, arith, u32_mod, ◌⊎◌, ◌<◌, HasBit,
}
use deus_os_stm.Scheduler.State.{Task, TaskState, blank_task, time_reached}
use deus_os_stm.Scheduler.Select.{select_next_ready}
use deus_os_stm.Scheduler.State.{Scheduler, task_count}
use deus_os_stm.Scheduler.Events.{event_signal, tick}
use deus_os_stm.Scheduler.Dispatch.{svc_dispatch, pendsv_dispatch}
use deus_os_stm.Scheduler.Safety.{Resumes}
use deus_os_stm.Scheduler.Safety.Calls.{IsScheduled, svc_dispatch-Resumes, pendsv_dispatch-Resumes}
use deus_os_stm.Scheduler.Wakeups.{
  Pointwise, Some, Awaits, IsWoken, IsLate, IsTicked, tick-IsTicked,
}
use deus_os_stm.Scheduler.Broadcast.{Waits, event_signal-IsWoken}
use deus_os_stm.Scheduler.Setup.{task_stack_bind, task_prepare}
use deus_os_stm.Scheduler.Prepared.{IsStartable, task_prepare_lem}
use deus_os_stm.Scheduler.Fairness.{IsChoice, select_next_ready-IsChoice}
use deus_os_stm.Scheduler.Timers.{time_reached_iff}

abbrev ready_task : Task
ready_task = record blank_task { state = TaskState.ready; priority = 128 }

select_next_ready-IsChoice_example :
    IsChoice (ready_task ∷ ready_task ∷ []) 0 (select_next_ready (ready_task ∷ ready_task ∷ []) 0)
select_next_ready-IsChoice_example =
    select_next_ready-IsChoice ready_task ready_task 0 (omega arith) (omega arith) (omega arith)

time_reached_iff_example :
    (time_reached ((4294967290 + 20) % u32_mod) ((4294967290 % u32_mod + 10) % u32_mod) ≡ true)
    ↔ (10 ≤ 20)
time_reached_iff_example = time_reached_iff 4294967290 10 20 (omega arith) (omega arith)

-- The first task runs on its stack and calls SVC 1; the second waits for the event 4 or the time 50.
abbrev first_task : Task
first_task = record ready_task {
  saved_sp = 0x20000100;
  stack_low = 0x20000000;
  stack_high = 0x20000200;
  stack_words = 128;
}

abbrev waiting_task : Task
waiting_task = record first_task {
  saved_sp = 0x20001100;
  stack_low = 0x20001000;
  stack_high = 0x20001200;
  state = TaskState.blocked;
  wait_events = 4;
  deadline_ms = 50;
  deadline_active = true;
}

abbrev scheduler : Scheduler
scheduler = record {
  tasks = first_task ∷ waiting_task ∷ [];
  current_index = 0;
  active = true;
  completed_count = 0;
  target_count = 2;
  run_result = 0;
  preempt_enabled = true;
  preempt_switch_count = 0;
  pending_events = 0;
  idle_wait_count = 0;
  now_ms = 40;
  stack_high_water_words = 0 ∷ 0 ∷ [];
  stack_canary_exhausted = 0 ∷ 0 ∷ [];
  memory = λ _. 0x08000102;
  code = λ _. 0xDF01;
  pendsv = false;
  event_register = false;
}

scheduler-IsScheduled : IsScheduled scheduler
scheduler-IsScheduled = record { two = refl; ready = λ _. refl }

svc_dispatch-Resumes_example : Resumes (svc_dispatch scheduler 0x20000100 0xFFFFFFFD)
svc_dispatch-Resumes_example =
    svc_dispatch-Resumes scheduler 0x20000100 0xFFFFFFFD scheduler-IsScheduled

pendsv_dispatch-Resumes_example : Resumes (pendsv_dispatch scheduler 0x20000100)
pendsv_dispatch-Resumes_example = pendsv_dispatch-Resumes scheduler 0x20000100 scheduler-IsScheduled

event_signal-IsWoken_example :
    Pointwise (IsWoken (bit_or 0 12)) scheduler.tasks (event_signal scheduler 12).tasks
    × (HasBit 3 (event_signal scheduler 12).pending_events
        ↔ ((HasBit 3 0 ⊎ HasBit 3 12) × ¬ Some (Waits 3) scheduler.tasks))
    × (((event_signal scheduler 12).pendsv ≡ true) ↔ (
        (false ≡ true)
        ⊎ (Some (Awaits (bit_or 0 12)) scheduler.tasks × (true ≡ true) × (0 < task_count))))
    × ((event_signal scheduler 12).event_register ≡ true)
    × ((event_signal scheduler 12).now_ms ≡ 40)
event_signal-IsWoken_example =
    event_signal-IsWoken scheduler 12 3 (λ e. absurd (omega arith)) refl (omega arith) (omega arith)
      (omega arith)

tick-IsTicked_example :
    Pointwise (IsTicked 51) scheduler.tasks (tick scheduler 51).tasks
    × ((tick scheduler 51).now_ms ≡ 51)
    × ((tick scheduler 51).pending_events ≡ 0)
    × (((tick scheduler 51).pendsv ≡ true) ↔ ((false ≡ true) ⊎ ((true ≡ true) × (0 < task_count))))
    × (((tick scheduler 51).event_register ≡ true)
        ↔ ((false ≡ true) ⊎ Some (IsLate 51) scheduler.tasks))
tick-IsTicked_example = tick-IsTicked scheduler 51 refl

-- A scheduler that has not run, whose first task gets a stack of 128 words and an entry.
abbrev empty : Scheduler
empty = record scheduler { tasks = blank_task ∷ blank_task ∷ []; current_index = 2; active = false }

abbrev bound : Scheduler
bound = (task_stack_bind empty 0 0x20000000 128).1

abbrev prepared : Scheduler
prepared = (task_prepare bound 0 0x08000201 0 0x08000301).1

empty-bound : task_stack_bind empty 0 0x20000000 128 ≡ (true, bound)
unfolding task_stack_bind
empty-bound = refl

bound-prepared : task_prepare bound 0 0x08000201 0 0x08000301 ≡ (true, prepared)
unfolding task_prepare task_stack_bind
bound-prepared = refl

task_prepare_lem_example : IsStartable prepared 0 0x08000201
task_prepare_lem_example =
    task_prepare_lem empty bound prepared 0 0x20000000 128 0x08000201 0 0x08000301 refl
      (omega arith) empty-bound bound-prepared

-- ===== src/Scheduler/Events.antt =====
-- `scheduler_event_signal` and `scheduler_tick`: what interrupt handlers do to blocked tasks.
use deus_os_stm.Common.{
  ℕ, ◌+◌, ◌-◌, ◌*◌, Bool, true, false, ◌&&◌, not, List, [], ◌∷◌, ltb, ◌==◌, ◌!=◌, if◌then◌else◌,
  bit_and, bit_or, u32_mod,
}
use deus_os_stm.Scheduler.State.{
  Task, TaskState, Scheduler, Memory, poke, task_count, cleared, is_blocked, time_reached,
}

-- `~x` on a `uint32_t`
abbrev pub complement : ℕ → ℕ
complement x = u32_mod - 1 - x

-- The address of the stacked r0, `saved_sp[8]`.
abbrev pub result_address : Task → ℕ
result_address t = t.saved_sp + 4 * 8

-- A blocked task whose wait the pending events match is made ready with them.
abbrev pub is_signalled : ℕ → Task → Bool
is_signalled pending t = is_blocked t.state && bit_and t.wait_events pending != 0

abbrev pub signalled : ℕ → Task → Task
signalled pending t = record (cleared t) {
  wake_events = bit_and t.wait_events pending;
  state = TaskState.ready;
}

-- What the loop of `scheduler_event_signal` leaves: the tasks, the memory, `consumed_events` and
-- `woke_task`.
pub record Woken : Type 0 where
  pub tasks : List Task
  pub memory : Memory
  pub consumed : ℕ
  pub woke : Bool

unfoldable pub signal_tasks : ℕ → List Task → Memory → ℕ → Bool → Woken
signal_tasks pending [] m consumed woke = record {
  tasks = [];
  memory = m;
  consumed = consumed;
  woke = woke;
}
signal_tasks pending (t ∷ tasks) m consumed woke =
    let hit = is_signalled pending t in
    let matched = bit_and t.wait_events pending in
    let rest =
      signal_tasks pending tasks (if hit then poke m (result_address t) matched else m)
        (if hit then bit_or consumed matched else consumed) (if hit then true else woke) in
    record rest { tasks = (if hit then signalled pending t else t) ∷ rest.tasks }

-- The end of both functions: PendSV is set where a running task may be preempted, and SEV executed.
abbrev pub raise_pendsv : Bool → Scheduler → Scheduler
raise_pendsv wanted s =
    if wanted && s.preempt_enabled && ltb s.current_index task_count
    then record s { pendsv = true }
    else s

unfoldable pub event_signal : Scheduler → ℕ → Scheduler
event_signal s events =
    if events == 0
    then s
    else if not s.active
    then s
    else let pending = bit_or s.pending_events events in
      let w = signal_tasks pending s.tasks s.memory 0 false in
      record (raise_pendsv w.woke (record s {
        tasks = w.tasks;
        memory = w.memory;
        pending_events = bit_and pending (complement w.consumed);
      })) { event_register = true }

-- A blocked task whose deadline is reached is made ready; a sleep returns 1, a wait 0.
abbrev pub is_due : ℕ → Task → Bool
is_due now_ms t = is_blocked t.state && t.deadline_active && time_reached now_ms t.deadline_ms

abbrev pub timeout_result : Task → ℕ
timeout_result t = if t.wait_events == 0 then 1 else 0

abbrev pub timed_out : Task → Task
timed_out t = record (cleared t) { state = TaskState.ready }

unfoldable pub tick_tasks : ℕ → List Task → Memory → Bool → Woken
tick_tasks now_ms [] m woke = record { tasks = []; memory = m; consumed = 0; woke = woke }
tick_tasks now_ms (t ∷ tasks) m woke =
    let due = is_due now_ms t in
    let rest =
      tick_tasks now_ms tasks (if due then poke m (result_address t) (timeout_result t) else m)
        (if due then true else woke) in
    record rest { tasks = (if due then timed_out t else t) ∷ rest.tasks }

unfoldable pub tick : Scheduler → ℕ → Scheduler
tick s now_ms =
    if not s.active
    then record s { now_ms = now_ms }
    else let w = tick_tasks now_ms s.tasks s.memory false in
      let s' =
        raise_pendsv true (record s { now_ms = now_ms; tasks = w.tasks; memory = w.memory }) in
      if w.woke then record s' { event_register = true } else s'

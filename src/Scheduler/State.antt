-- ===== src/Scheduler/State.antt =====
-- The tasks, the static variables and the memory of src/kernel/scheduler.c. A pointer is its
-- address, null is 0. What an exception handler does between `scheduler_irq_save` and
-- `scheduler_irq_restore` is one step of the model, so the two have no counterpart.
use deus_os_stm.Common.{
  ℕ, zero, suc, ◌+◌, ◌-◌, ◌*◌, ◌%◌, Bool, true, false, ◌&&◌, ◌||◌, List, [], ◌∷◌, get_or, set, ltb,
  leb, ◌==◌, ◌!=◌, if◌then◌else◌, bit_and, u32_mod,
}

-- `scheduler_task_state_t`
pub data TaskState : Type 0 where
  unused ready done blocked : TaskState

abbrev pub is_ready : TaskState → Bool
is_ready TaskState.ready = true
is_ready _ = false

abbrev pub is_blocked : TaskState → Bool
is_blocked TaskState.blocked = true
is_blocked _ = false

abbrev pub is_unused : TaskState → Bool
is_unused TaskState.unused = true
is_unused _ = false

-- `scheduler_task_t`
pub record Task : Type 0 where
  pub saved_sp : ℕ
  pub stack_low : ℕ
  pub stack_high : ℕ
  pub stack_words : ℕ
  pub state : TaskState
  pub priority : ℕ
  pub wait_events : ℕ
  pub wake_events : ℕ
  pub deadline_ms : ℕ
  pub deadline_active : Bool

abbrev pub task_count : ℕ
task_count = 2

abbrev pub no_task : ℕ
no_task = task_count

abbrev pub max_timeout_ms : ℕ
max_timeout_ms = 0x7FFFFFFF

abbrev pub priority_default : ℕ
priority_default = 128

abbrev pub priority_lowest : ℕ
priority_lowest = 255

abbrev pub initial_frame_words : ℕ
initial_frame_words = 16

abbrev pub stack_fill : ℕ
stack_fill = 0xA5A5A5A5

-- Words of memory by their address, and halfwords of code.
abbrev pub Memory : Type 0
Memory = ℕ → ℕ

abbrev pub poke : Memory → ℕ → ℕ → Memory
poke m at v a = if a == at then v else m a

-- `p[i]` for a `uint32_t *`
abbrev pub word : Memory → ℕ → ℕ → ℕ
word m p i = m (p + 4 * i)

-- The static variables; `pendsv` is the pending bit of PendSV, `event_register` what SEV sets.
pub record Scheduler : Type 0 where
  pub tasks : List Task
  pub current_index : ℕ
  pub active : Bool
  pub completed_count : ℕ
  pub target_count : ℕ
  pub run_result : ℕ
  pub preempt_enabled : Bool
  pub preempt_switch_count : ℕ
  pub pending_events : ℕ
  pub idle_wait_count : ℕ
  pub now_ms : ℕ
  pub stack_high_water_words : List ℕ
  pub stack_canary_exhausted : List ℕ
  pub memory : Memory
  pub code : Memory
  pub pendsv : Bool
  pub event_register : Bool

-- An entry of the task array as the C start-up leaves it.
abbrev pub blank_task : Task
blank_task = record {
  saved_sp = 0;
  stack_low = 0;
  stack_high = 0;
  stack_words = 0;
  state = TaskState.unused;
  priority = 0;
  wait_events = 0;
  wake_events = 0;
  deadline_ms = 0;
  deadline_active = false;
}

abbrev pub task_at : Scheduler → ℕ → Task
task_at s i = get_or s.tasks i blank_task

abbrev pub with_task : Scheduler → ℕ → Task → Scheduler
with_task s i t = record s { tasks = set s.tasks i t }

-- A task that waits for nothing.
abbrev pub cleared : Task → Task
cleared t = record t { wait_events = 0; wake_events = 0; deadline_ms = 0; deadline_active = false }

-- `scheduler_frame_pointer_valid` for a task that exists.
unfoldable pub frame_pointer_valid : Task → ℕ → Bool
frame_pointer_valid t sp =
    sp != 0
    && t.stack_low != 0
    && t.stack_high != 0
    && sp % 8 == 0
    && leb t.stack_low sp
    && leb sp ((t.stack_high + u32_mod - 4 * initial_frame_words) % u32_mod)

-- `scheduler_clear_pending_pendsv`
abbrev pub clear_pending_pendsv : Scheduler → Scheduler
clear_pending_pendsv s = record s { pendsv = false }

-- `scheduler_abort_run`
unfoldable pub abort_run : Scheduler → Scheduler
abort_run s = record s {
  preempt_enabled = false;
  pendsv = false;
  active = false;
  current_index = no_task;
  run_result = 0;
}

-- The untouched words at the bottom of a stack: the loop of `scheduler_stack_measure_used_words`.
unfoldable pub untouched_words : Memory → ℕ → ℕ → ℕ
untouched_words m at zero = 0
untouched_words m at (suc n) = if m at == stack_fill then suc (untouched_words m (at + 4) n) else 0

unfoldable pub stack_measure_used_words : Memory → Task → ℕ
stack_measure_used_words m t =
    if t.stack_low == 0 || t.stack_high == 0 || t.stack_words == 0
    then 0
    else t.stack_words - untouched_words m t.stack_low t.stack_words

-- `scheduler_stack_record`
unfoldable pub stack_record : Scheduler → ℕ → Scheduler
stack_record s index =
    let used = stack_measure_used_words s.memory (task_at s index) in
    if leb task_count index then s else record s {
      stack_high_water_words =
          if ltb (get_or s.stack_high_water_words index 0) used
          then set s.stack_high_water_words index used
          else s.stack_high_water_words;
      stack_canary_exhausted =
          if leb (task_at s index).stack_words used
          then set s.stack_canary_exhausted index 1
          else s.stack_canary_exhausted;
    }

-- `scheduler_stack_telemetry_reset`
abbrev pub stack_telemetry_reset : Scheduler → Scheduler
stack_telemetry_reset s = record s {
  stack_high_water_words = 0 ∷ 0 ∷ [];
  stack_canary_exhausted = 0 ∷ 0 ∷ [];
}

-- `scheduler_decode_svc_number`: the immediate of the SVC instruction before the stacked PC.
unfoldable pub decode_svc_number : Scheduler → ℕ → ℕ
decode_svc_number s sp =
    let pc = word s.memory sp 14 in
    let instruction = s.code (pc - 2) in
    if sp == 0
    then 0xFFFFFFFF
    else if ltb pc 2
    then 0xFFFFFFFF
    else if bit_and instruction 0xFF00 != 0xDF00
    then 0xFFFFFFFF
    else bit_and instruction 0x00FF

-- `scheduler_time_reached`: the sign of the 32-bit difference.
unfoldable pub time_reached : ℕ → ℕ → Bool
time_reached now_ms deadline_ms = ltb ((now_ms + u32_mod - deadline_ms) % u32_mod) 0x80000000

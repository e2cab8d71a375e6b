-- ===== src/Scheduler/Prepared.antt =====
-- `scheduler_task_stack_bind` and `scheduler_task_prepare` one after the other.
use deus_os_stm.Common.{
  ℕ, ◌+◌, ◌-◌, ◌*◌, ◌%◌, ◌≤◌, ◌<◌, ◌≡◌, ◌≢◌, refl, ◌∙◌, true, length, set, u32_mod, arith,
  get_or-set_self, length-set,
}
use deus_os_stm.Scheduler.State.{
  Task, TaskState, Scheduler, word, task_count, initial_frame_words, task_at, blank_task, cleared,
  frame_pointer_valid,
}
use deus_os_stm.Scheduler.Setup.{task_stack_bind, initial_frame, task_prepare}

-- What `scheduler_task_stack_bind` stores for a task.
record IsBound (s : Scheduler) (index stack_low stack_words : ℕ) : Type 0 where
  small : index < task_count
  some_stack : stack_low ≢ 0
  enough : initial_frame_words ≤ stack_words
  low_aligned : stack_low % 8 ≡ 0
  high_aligned : ((stack_low + 4 * stack_words) % u32_mod) % 8 ≡ 0
  low_eq : (task_at s index).stack_low ≡ stack_low
  high_eq : (task_at s index).stack_high ≡ (stack_low + 4 * stack_words) % u32_mod
  two : length s.tasks ≡ task_count

bind-IsBound :
    (s s' : Scheduler) (index stack_low stack_words : ℕ)
    → length s.tasks ≡ task_count
    → task_stack_bind s index stack_low stack_words ≡ (true, s')
    → IsBound s' index stack_low stack_words
unfolding task_stack_bind
bind-IsBound s s' index stack_low stack_words l e =
    let t : Task = record (cleared (task_at s index)) {
      stack_low = stack_low;
      stack_high = (stack_low + 4 * stack_words) % u32_mod;
      saved_sp = (stack_low + 4 * stack_words) % u32_mod;
      stack_words = stack_words;
    } in
    let small : index < task_count = ground arith in
    let at = get_or-set_self s.tasks index t blank_task (rw l small) in
    let kept = length-set s.tasks index t in
    let here : s'.tasks ≡ set s.tasks index t = ground arith in
    record {
      small = small;
      some_stack = ground arith;
      enough = ground arith;
      low_aligned = ground arith;
      high_aligned = ground arith;
      low_eq = rw (here, at) refl;
      high_eq = rw (here, at) refl;
      two = rw here (kept ∙ l);
    }

-- A task that can be started at an entry.
pub record IsStartable (s : Scheduler) (index entry : ℕ) : Type 0 where
  pub ready : (task_at s index).state ≡ TaskState.ready
  pub sound : frame_pointer_valid (task_at s index) (task_at s index).saved_sp ≡ true
  pub starts_at : word s.memory (task_at s index).saved_sp 14 ≡ entry - entry % 2
  pub thumb : word s.memory (task_at s index).saved_sp 15 ≡ 0x01000000

-- A task is given a stack that ends below 2 ^ 32 and is then prepared, and both calls return 1: it
-- is ready, its stack pointer is a sound frame within that stack, and the frame starts the task at
-- its entry, without the Thumb bit, which is set in the stacked xPSR.
pub task_prepare_lem :
    (s s' s'' : Scheduler) (index stack_low stack_words entry argument trap : ℕ)
    → length s.tasks ≡ task_count
    → stack_low + 4 * stack_words < u32_mod
    → task_stack_bind s index stack_low stack_words ≡ (true, s')
    → task_prepare s' index entry argument trap ≡ (true, s'')
    → IsStartable s'' index entry
unfolding task_prepare frame_pointer_valid
task_prepare_lem s s' s'' index stack_low stack_words entry argument trap l fits e g =
    let v = bind-IsBound s s' index stack_low stack_words l e in
    let frame : ℕ = ((task_at s' index).stack_high + u32_mod - 4 * initial_frame_words) % u32_mod in
    let t : Task = record (cleared (task_at s' index)) {
      saved_sp = frame;
      state = TaskState.ready;
    } in
    let at = get_or-set_self s'.tasks index t blank_task (rw (v.two) (v.small)) in
    let here : s''.tasks ≡ set s'.tasks index t = ground arith in
    let there : s''.memory ≡ initial_frame s'.memory frame entry argument trap = ground arith in
    let a = v.some_stack in
    let b = v.enough in
    let c = v.low_aligned in
    let d = v.high_aligned in
    record {
      ready = rw (here, at) refl;
      sound = rw (here, at, v.low_eq, v.high_eq) (ground arith);
      starts_at = rw (here, at, there) (ground arith);
      thumb = rw (here, at, there) (ground arith);
    }

-- ===== src/Scheduler/Safety.antt =====
-- What the two dispatchers hand back to the exception handlers.
pub mod Calls
use deus_os_stm.Common.{
  ℕ, zero, suc, ◌+◌, ◌-◌, ◌*◌, ◌%◌, ◌≤◌, ◌<◌, ◌≡◌, ◌≢◌, refl, sym, ap, ◌∙◌, Bool, true, false, ◌&&◌,
  ◌||◌, not, List, [], ◌∷◌, get_or, set, length, ltb, leb, ◌==◌, ◌!=◌, if◌then◌else◌, bit_and,
  u32_mod, arith, if_intro, get_or-set_self, length-set,
}
use deus_os_stm.Scheduler.State.{
  Task, TaskState, Scheduler, task_count, no_task, task_at, with_task, blank_task, cleared,
  is_ready, frame_pointer_valid, abort_run, stack_record, poke, word, max_timeout_ms,
  decode_svc_number,
}
use deus_os_stm.Scheduler.Select.{select_next_ready, find_next_ready}
use deus_os_stm.Scheduler.Dispatch.{
  Dispatched, aborted, run_task, dispatch_host, park, switch_task, saved, update_current, returns,
  exit_task, matched_now, wait_events, timed_block, serve, dispatch_task, svc_dispatch, counted,
  preempt, pendsv_dispatch, svc_yield, svc_exit, svc_wait_events, svc_timed_block,
}
use deus_os_stm.Scheduler.Events.{complement}

-- A stack pointer that a handler may go on with: the run is active, and the pointer is a sound frame
-- of the current task, which is ready.
pub record IsResumed (s : Scheduler) (sp : ℕ) : Type 0 where
  pub active : s.active ≡ true
  pub bounded : s.current_index < task_count
  pub ready : is_ready (task_at s s.current_index).state ≡ true
  pub sound : frame_pointer_valid (task_at s s.current_index) sp ≡ true

pub Resumes : Dispatched → Type 0
Resumes p = p.0 ≢ 0 → IsResumed p.1 p.0

pub select_ready :
    (tasks : List Task) (after : ℕ)
    → select_next_ready tasks after < task_count
    → is_ready (get_or tasks (select_next_ready tasks after) blank_task).state ≡ true
unfolding select_next_ready
select_ready tasks after h = ground arith

pub run_task-Resumes :
    (s : Scheduler) (next : ℕ)
    → s.active ≡ true
    → next < task_count
    → is_ready (task_at s next).state ≡ true
    → Resumes (run_task s next)
unfolding Resumes abort_run
run_task-Resumes s next a h r =
    if_intro Resumes (not (frame_pointer_valid (task_at s next) (task_at s next).saved_sp)) _ _
      (λ _ z. absurd (z refl))
      (λ f _. record { active = a; bounded = h; ready = r; sound = ground arith })

-- No task is ready: nothing is resumed.
pub none-Resumes : (s : Scheduler) → Resumes (0, s)
unfolding Resumes
none-Resumes s z = absurd (z refl)

pub switch_task-Resumes : (s : Scheduler) → s.active ≡ true → Resumes (switch_task s)
unfolding switch_task
switch_task-Resumes s a =
    if_intro Resumes (leb task_count (find_next_ready s s.current_index)) (0, park s)
      (run_task s (find_next_ready s s.current_index)) (λ _. none-Resumes (park s))
      (λ h.
        run_task-Resumes s (find_next_ready s s.current_index) a (ground arith)
          (select_ready s.tasks s.current_index (ground arith)))

-- The current task runs, and a stack pointer is a sound frame of it.
pub record IsRunning (s : Scheduler) (sp : ℕ) : Type 0 where
  pub active : s.active ≡ true
  pub bounded : s.current_index < task_count
  pub two : length s.tasks ≡ task_count
  pub ready : is_ready (task_at s s.current_index).state ≡ true
  pub sound : frame_pointer_valid (task_at s s.current_index) sp ≡ true

-- An update of the current task that keeps its state and its stack.
pub Keeps : (Task → Task) → Type 0
Keeps f =
    (t : Task)
    → ((f t).state ≡ t.state) × ((f t).stack_low ≡ t.stack_low) × ((f t).stack_high ≡ t.stack_high)

pub update-IsRunning :
    (s : Scheduler) (sp : ℕ) (f : Task → Task)
    → Keeps f
    → IsRunning s sp
    → IsRunning (update_current s f) sp
unfolding Keeps frame_pointer_valid
update-IsRunning s sp f k v = record {
  active = v.active;
  bounded = v.bounded;
  two = length-set s.tasks s.current_index _ ∙ v.two;
  ready = rw at (ap is_ready (k (task_at s s.current_index)).0 ∙ v.ready);
  sound = rw (at, (k (task_at s s.current_index)).1, (k (task_at s s.current_index)).2) v.sound;
}
  where
    at : task_at (update_current s f) s.current_index ≡ f (task_at s s.current_index)
    at = get_or-set_self s.tasks s.current_index _ blank_task (rw v.two v.bounded)

-- Only these parts of the state matter.
pub IsRunning-same :
    (s t : Scheduler) (sp : ℕ)
    → t.active ≡ s.active
    → t.current_index ≡ s.current_index
    → t.tasks ≡ s.tasks
    → IsRunning s sp
    → IsRunning t sp
IsRunning-same s t sp a c e v = record {
  active = a ∙ v.active;
  bounded = rw c v.bounded;
  two = rw e v.two;
  ready = rw (c, e) v.ready;
  sound = rw (c, e) v.sound;
}

pub saved-IsRunning : (s : Scheduler) (sp : ℕ) → IsRunning s sp → IsRunning (saved s sp) sp
unfolding stack_record Keeps
saved-IsRunning s sp v =
    IsRunning-same (update_current s (λ t. record t { saved_sp = sp })) (saved s sp) sp
      (ground arith) (ground arith) (ground arith)
      (update-IsRunning s sp (λ t. record t { saved_sp = sp }) (λ t. (refl, refl, refl)) v)

-- A call that returns at once resumes its task.
pub returns-Resumes :
    (s : Scheduler) (sp result : ℕ) → IsRunning s sp → Resumes (returns s sp result)
unfolding Resumes
returns-Resumes s sp result v _ = record {
  active = v.active;
  bounded = v.bounded;
  ready = v.ready;
  sound = v.sound;
}

-- ===== src/Scheduler/Safety/Calls.antt =====
-- The calls of the dispatchers one by one, and the dispatchers as a whole.
use deus_os_stm.Common.{
  ℕ, ◌-◌, ◌<◌, ◌≡◌, refl, ◌∙◌, true, false, ◌||◌, not, length, ltb, leb, ◌==◌, ◌!=◌, if◌then◌else◌,
  bit_and, arith, if_intro,
}
use deus_os_stm.Scheduler.State.{
  Task, Scheduler, task_count, no_task, task_at, cleared, is_ready, frame_pointer_valid, abort_run,
  word, max_timeout_ms, decode_svc_number,
}
use deus_os_stm.Scheduler.Select.{find_next_ready}
use deus_os_stm.Scheduler.Dispatch.{
  aborted, run_task, dispatch_host, saved, update_current, returns, exit_task, matched_now,
  wait_events, timed_block, serve, dispatch_task, svc_dispatch, counted, preempt, pendsv_dispatch,
  svc_yield, svc_exit, svc_wait_events, svc_timed_block,
}
use deus_os_stm.Scheduler.Events.{complement}
use deus_os_stm.Scheduler.Safety.{
  Resumes, none-Resumes, select_ready, run_task-Resumes, switch_task-Resumes, IsRunning, Keeps,
  update-IsRunning, IsRunning-same, saved-IsRunning, returns-Resumes,
}

matched_now-Resumes :
    (s : Scheduler) (sp matched : ℕ) → IsRunning s sp → Resumes (matched_now s sp matched)
unfolding Keeps
matched_now-Resumes s sp matched v =
    let f : Task → Task = λ t. record (cleared t) { wake_events = matched } in
    let t : Scheduler = record (update_current s f) {
      pending_events = bit_and s.pending_events (complement matched);
    } in
    returns-Resumes t sp matched (
      IsRunning-same (update_current s f) t sp refl refl refl
        (update-IsRunning s sp f (λ t. (refl, refl, refl)) v))

cleared-Resumes :
    (s : Scheduler) (sp result : ℕ)
    → IsRunning s sp
    → Resumes (returns (update_current s cleared) sp result)
unfolding Keeps
cleared-Resumes s sp result v =
    returns-Resumes (update_current s cleared) sp result
      (update-IsRunning s sp cleared (λ t. (refl, refl, refl)) v)

wait_events-Resumes :
    (s : Scheduler) (sp requested : ℕ) → IsRunning s sp → Resumes (wait_events s sp requested)
unfolding wait_events
wait_events-Resumes s sp requested v =
    if_intro Resumes (bit_and s.pending_events requested != 0)
      (matched_now s sp (bit_and s.pending_events requested)) _
      (λ _. matched_now-Resumes s sp (bit_and s.pending_events requested) v)
      (λ _. switch_task-Resumes _ v.active)

timed_block-Resumes :
    (s : Scheduler) (sp requested timeout_ms : ℕ)
    → IsRunning s sp
    → Resumes (timed_block s sp requested timeout_ms)
unfolding timed_block
timed_block-Resumes s sp requested timeout_ms v =
    if_intro Resumes (matched != 0) (matched_now s sp matched) _
      (λ _. matched_now-Resumes s sp matched v)
      (λ _.
        if_intro Resumes (timeout_ms == 0) _ _ (λ _. cleared-Resumes s sp _ v)
          (λ _.
            if_intro Resumes (ltb max_timeout_ms timeout_ms) _ _ (λ _. cleared-Resumes s sp 0 v)
              (λ _. switch_task-Resumes _ v.active)))
  where
    matched : ℕ
    matched = if requested != 0 then bit_and s.pending_events requested else 0

serve-Resumes : (s : Scheduler) (sp number : ℕ) → IsRunning s sp → Resumes (serve s sp number)
unfolding serve exit_task
serve-Resumes s sp number v =
    if_intro Resumes (number == svc_yield) _ _ (λ _. switch_task-Resumes (saved s sp) w.active)
      (λ _.
        if_intro Resumes (number == svc_exit) _ _ (λ _. switch_task-Resumes _ w.active)
          (λ _.
            if_intro Resumes (number == svc_wait_events) _ _
              (λ _.
                if_intro Resumes (r0 == 0) (aborted s) (wait_events (saved s sp) sp r0)
                  (λ _. none-Resumes (abort_run s)) (λ _. wait_events-Resumes (saved s sp) sp r0 w))
              (λ _.
                if_intro Resumes (number == svc_timed_block) (timed_block (saved s sp) sp r0 r1)
                  (aborted s) (λ _. timed_block-Resumes (saved s sp) sp r0 r1 w)
                  (λ _. none-Resumes (abort_run s)))))
  where
    w : IsRunning (saved s sp) sp
    w = saved-IsRunning s sp v

    r0 : ℕ
    r0 = word s.memory sp 8

    r1 : ℕ
    r1 = word s.memory sp 9

dispatch_host-Resumes : (s : Scheduler) (sp : ℕ) → Resumes (dispatch_host s sp)
unfolding dispatch_host
dispatch_host-Resumes s sp =
    if_intro Resumes (not s.active || s.current_index != no_task || sp != 0) (aborted s) _
      (λ _. none-Resumes (abort_run s))
      (λ a.
        if_intro Resumes (leb task_count next) (aborted s) (run_task s next)
          (λ _. none-Resumes (abort_run s))
          (λ h.
            run_task-Resumes s next (ground arith) (ground arith)
              (select_ready s.tasks (task_count - 1) (ground arith))))
  where
    next : ℕ
    next = find_next_ready s (task_count - 1)

-- A state of the dispatchers: two tasks, and the current one is ready.
pub record IsScheduled (s : Scheduler) : Type 0 where
  pub two : length s.tasks ≡ task_count
  pub ready : s.current_index < task_count → is_ready (task_at s s.current_index).state ≡ true

dispatch_task-Resumes : (s : Scheduler) (sp : ℕ) → IsScheduled s → Resumes (dispatch_task s sp)
unfolding dispatch_task
dispatch_task-Resumes s sp v =
    if_intro Resumes (not s.active || leb task_count s.current_index || sp == 0) (aborted s) _
      (λ _. none-Resumes (abort_run s))
      (λ a.
        if_intro Resumes (not (frame_pointer_valid (task_at s s.current_index) sp)) (aborted s)
          (serve s sp (decode_svc_number s sp)) (λ _. none-Resumes (abort_run s))
          (λ f. serve-Resumes s sp (decode_svc_number s sp) (record {
            active = ground arith;
            bounded = ground arith;
            two = v.two;
            ready = v.ready (ground arith);
            sound = ground arith;
          })))

-- `scheduler_svc_dispatch` in a state with two tasks, the current one, if there is one, ready:
-- whatever call it serves, a stack pointer that it returns, other than 0, is a sound frame within
-- the stack of the task that is current afterwards; that task is ready, and the run is active.
pub svc_dispatch-Resumes :
    (s : Scheduler) (sp exc_return : ℕ) → IsScheduled s → Resumes (svc_dispatch s sp exc_return)
unfolding svc_dispatch
svc_dispatch-Resumes s sp exc_return v =
    if_intro Resumes (bit_and exc_return 4 == 0) (dispatch_host s sp) (dispatch_task s sp)
      (λ _. dispatch_host-Resumes s sp) (λ _. dispatch_task-Resumes s sp v)

preempt-Resumes : (s : Scheduler) → s.active ≡ true → Resumes (preempt s)
unfolding preempt Resumes
preempt-Resumes s a =
    if_intro Resumes (leb task_count next) (aborted s) _ (λ _. none-Resumes (abort_run s))
      (λ h.
        if_intro Resumes (not (frame_pointer_valid (task_at s next) (task_at s next).saved_sp))
          (aborted s) _ (λ _. none-Resumes (abort_run s)) (λ f. switched h f))
  where
    next : ℕ
    next = find_next_ready s s.current_index

    after : Scheduler
    after = record (counted s next) { current_index = next }

    same : (after.tasks ≡ s.tasks) × (after.active ≡ s.active)
    same = ground arith

    switched :
        leb task_count next ≡ false
        → not (frame_pointer_valid (task_at s next) (task_at s next).saved_sp) ≡ false
        → Resumes ((task_at s next).saved_sp, after)
    switched h f _ = record {
      active = same.1 ∙ a;
      bounded = ground arith;
      ready = rw (same.0) (select_ready s.tasks s.current_index (ground arith));
      sound = rw (same.0) (ground arith);
    }

-- `scheduler_pendsv_dispatch` in a state with two tasks, the current one, if there is one, ready: a
-- stack pointer that it returns, other than 0, is a sound frame within the stack of the task that is
-- current afterwards; that task is ready, and the run is active.
pub pendsv_dispatch-Resumes :
    (s : Scheduler) (sp : ℕ) → IsScheduled s → Resumes (pendsv_dispatch s sp)
unfolding pendsv_dispatch
pendsv_dispatch-Resumes s sp v =
    if_intro Resumes
      (not s.active || not s.preempt_enabled || leb task_count s.current_index || sp == 0)
      (aborted s) _ (λ _. none-Resumes (abort_run s))
      (λ a.
        if_intro Resumes (not (frame_pointer_valid (task_at s s.current_index) sp)) (aborted s)
          (preempt (saved s sp)) (λ _. none-Resumes (abort_run s))
          (λ f.
            preempt-Resumes (saved s sp)
              (saved-IsRunning s sp (record {
                active = ground arith;
                bounded = ground arith;
                two = v.two;
                ready = v.ready (ground arith);
                sound = ground arith;
              })).active))

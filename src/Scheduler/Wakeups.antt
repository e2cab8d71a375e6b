-- ===== src/Scheduler/Wakeups.antt =====
-- Which tasks an event or the tick makes ready, told from the fields of the tasks.
use deus_os_stm.Common.{
  ℕ, ◌+◌, ◌-◌, ◌%◌, ◌<◌, ◌≡◌, ◌≢◌, ◌⊎◌, ◌↔◌, inl, inr, refl, ap, Bool, true, false, ◌&&◌, ◌||◌,
  List, [], ◌∷◌, ltb, if◌then◌else◌, bit_and, bit_or, arith, Bool-cases, u32_mod,
}
use deus_os_stm.Scheduler.State.{
  Task, TaskState, is_blocked, Scheduler, Memory, task_count, poke, time_reached,
}
use deus_os_stm.Scheduler.Events.{
  is_signalled, signalled, signal_tasks, is_due, timed_out, tick_tasks, tick, raise_pendsv,
  result_address, timeout_result,
}

-- The same relation between the tasks of two arrays.
abbrev pub Pointwise : (Task → Task → Type 0) → List Task → List Task → Type 0
Pointwise R [] [] = Unit
Pointwise R (t ∷ tasks) (t' ∷ tasks') = R t t' × Pointwise R tasks tasks'
Pointwise R _ _ = ⊥

-- At least one task.
abbrev pub Some : (Task → Type 0) → List Task → Type 0
Some P [] = ⊥
Some P (t ∷ tasks) = P t ⊎ Some P tasks

-- A task is made ready, with the events that it gets and no wait left.
abbrev pub IsReadied : ℕ → Task → Task → Type 0
IsReadied events t t' = t' ≡ record t {
  state = TaskState.ready;
  wait_events = 0;
  wake_events = events;
  deadline_ms = 0;
  deadline_active = false;
}

-- A blocked task that waits for one of the events.
abbrev pub Awaits : ℕ → Task → Type 0
Awaits events t = (t.state ≡ TaskState.blocked) × (bit_and t.wait_events events ≢ 0)

-- What a signal does to a task while the events are pending.
abbrev pub IsWoken : ℕ → Task → Task → Type 0
IsWoken events t t' =
    (Awaits events t × IsReadied (bit_and t.wait_events events) t t')
    ⊎ (¬ Awaits events t × (t' ≡ t))

-- A blocked task with a deadline, which the time has reached by less than 2 ^ 31 milliseconds.
abbrev pub IsLate : ℕ → Task → Type 0
IsLate now_ms t =
    (t.state ≡ TaskState.blocked)
    × (t.deadline_active ≡ true)
    × ((now_ms + u32_mod - t.deadline_ms) % u32_mod < 0x80000000)

-- What the tick does to a task.
abbrev pub IsTicked : ℕ → Task → Task → Type 0
IsTicked now_ms t t' = (IsLate now_ms t × IsReadied 0 t t') ⊎ (¬ IsLate now_ms t × (t' ≡ t))

is_blocked-blocked : (x : TaskState) → (is_blocked x ≡ true) ↔ (x ≡ TaskState.blocked)
is_blocked-blocked TaskState.unused = (λ e. absurd (ground arith), λ e. ap is_blocked e)
is_blocked-blocked TaskState.ready = (λ e. absurd (ground arith), λ e. ap is_blocked e)
is_blocked-blocked TaskState.done = (λ e. absurd (ground arith), λ e. ap is_blocked e)
is_blocked-blocked TaskState.blocked = (λ e. refl, λ e. refl)

pub is_signalled-Awaits : (events : ℕ) (t : Task) → (is_signalled events t ≡ true) ↔ Awaits events t
is_signalled-Awaits events t =
    let b = is_blocked-blocked t.state in
    (λ e. (b.0 (ground arith), ground arith), λ (h, k). let c = b.1 h in ground (arith, k))

is_due-IsLate : (now_ms : ℕ) (t : Task) → (is_due now_ms t ≡ true) ↔ IsLate now_ms t
unfolding time_reached
is_due-IsLate now_ms t =
    let b = is_blocked-blocked t.state in
    (
      λ e. (b.0 (ground arith), ground arith, ground arith),
      λ (h, k, l). let c = b.1 h in ground arith,
    )

-- A choice by a test that decides a proposition.
decided :
    (b : Bool) (P : Type 0) (t t' : Task)
    → (b ≡ true) ↔ P
    → (P × ((if b then t' else t) ≡ t')) ⊎ (¬ P × ((if b then t' else t) ≡ t))
decided true P t t' h = inl (h.0 refl, refl)
decided false P t t' h = inr (λ p. let e = h.1 p in absurd (ground arith), refl)

pub signal_tasks-IsWoken :
    (events : ℕ) (tasks : List Task) (m : Memory) (consumed : ℕ) (woke : Bool)
    → Pointwise (IsWoken events) tasks (signal_tasks events tasks m consumed woke).tasks
unfolding signal_tasks
signal_tasks-IsWoken events [] m consumed woke = tt
signal_tasks-IsWoken events (t ∷ tasks) m consumed woke =
    let hit = is_signalled events t in
    let matched = bit_and t.wait_events events in
    (
      decided hit (Awaits events t) t (signalled events t) (is_signalled-Awaits events t),
      signal_tasks-IsWoken events tasks (if hit then poke m (result_address t) matched else m)
          (if hit then bit_or consumed matched else consumed) (if hit then true else woke),
    )

tick_tasks-IsTicked :
    (now_ms : ℕ) (tasks : List Task) (m : Memory) (woke : Bool)
    → Pointwise (IsTicked now_ms) tasks (tick_tasks now_ms tasks m woke).tasks
unfolding tick_tasks
tick_tasks-IsTicked now_ms [] m woke = tt
tick_tasks-IsTicked now_ms (t ∷ tasks) m woke =
    let due = is_due now_ms t in
    (
      decided due (IsLate now_ms t) t (timed_out t) (is_due-IsLate now_ms t),
      tick_tasks-IsTicked now_ms tasks
          (if due then poke m (result_address t) (timeout_result t) else m)
          (if due then true else woke),
    )

-- A test that is remembered.
remembered :
    (b woke : Bool) (P Q : Type 0)
    → (b ≡ true) ↔ P
    → (((if b then true else woke) ≡ true) ⊎ Q) ↔ ((woke ≡ true) ⊎ (P ⊎ Q))
remembered true woke P Q h =
    (λ x. inr (elim x [ inl e ↦ inl (h.0 refl) | inr q ↦ inr q ]), λ x. inl refl)
remembered false woke P Q h = (
  λ x. elim x [ inl e ↦ inl e | inr q ↦ inr (inr q) ],
  λ x. elim x [
    | inl e ↦ inl e
    | inr y ↦ elim y [ inl p ↦ let e = h.1 p in absurd (ground arith) | inr q ↦ inr q ]
  ],
)

pub signal_tasks-woke :
    (events : ℕ) (tasks : List Task) (m : Memory) (consumed : ℕ) (woke : Bool)
    → ((signal_tasks events tasks m consumed woke).woke ≡ true)
      ↔ ((woke ≡ true) ⊎ Some (Awaits events) tasks)
unfolding signal_tasks
signal_tasks-woke events [] m consumed woke =
    (λ e. inl e, λ x. elim x [ inl e ↦ e | inr y ↦ absurd y ])
signal_tasks-woke events (t ∷ tasks) m consumed woke =
    let hit = is_signalled events t in
    let matched = bit_and t.wait_events events in
    let ih =
      signal_tasks-woke events tasks (if hit then poke m (result_address t) matched else m)
        (if hit then bit_or consumed matched else consumed) (if hit then true else woke) in
    let here =
      remembered hit woke (Awaits events t) (Some (Awaits events) tasks)
        (is_signalled-Awaits events t) in
    (λ e. here.0 (ih.0 e), λ x. ih.1 (here.1 x))

tick_tasks-woke :
    (now_ms : ℕ) (tasks : List Task) (m : Memory) (woke : Bool)
    → ((tick_tasks now_ms tasks m woke).woke ≡ true) ↔ ((woke ≡ true) ⊎ Some (IsLate now_ms) tasks)
unfolding tick_tasks
tick_tasks-woke now_ms [] m woke = (λ e. inl e, λ x. elim x [ inl e ↦ e | inr y ↦ absurd y ])
tick_tasks-woke now_ms (t ∷ tasks) m woke =
    let due = is_due now_ms t in
    let ih =
      tick_tasks-woke now_ms tasks (if due then poke m (result_address t) (timeout_result t) else m)
        (if due then true else woke) in
    let here =
      remembered due woke (IsLate now_ms t) (Some (IsLate now_ms) tasks) (is_due-IsLate now_ms t) in
    (λ e. here.0 (ih.0 e), λ x. ih.1 (here.1 x))

-- When PendSV is pending after a function that may have raised it.
pub raised :
    (b : Bool) (s : Scheduler)
    → ((raise_pendsv b s).pendsv ≡ true) ↔ (
        (s.pendsv ≡ true)
        ⊎ ((b ≡ true) × (s.preempt_enabled ≡ true) × (s.current_index < task_count)))
raised b s = (
  λ e. elim (Bool-cases (b && s.preempt_enabled && ltb s.current_index task_count)) [
    | inl t ↦ inr (ground arith, ground arith, ground arith)
    | inr f ↦ inl (ground arith)
  ],
  λ x. elim x [ inl e ↦ ground arith | inr y ↦ ground (arith, y) ],
)

-- The tick in an active run sets the time and leaves the pending events alone. A blocked task with
-- a deadline that the time has reached, by less than 2 ^ 31 milliseconds, is made ready with no
-- wait left and no events; every other task is as it was. PendSV is pending afterwards exactly if
-- it was before, or preemption is enabled and a task runs; the event register is set exactly if it
-- was before, or a task was late.
pub tick-IsTicked :
    (s : Scheduler) (now_ms : ℕ)
    → s.active ≡ true
    → Pointwise (IsTicked now_ms) s.tasks (tick s now_ms).tasks
      × ((tick s now_ms).now_ms ≡ now_ms)
      × ((tick s now_ms).pending_events ≡ s.pending_events)
      × (((tick s now_ms).pendsv ≡ true)
          ↔ ((s.pendsv ≡ true) ⊎ ((s.preempt_enabled ≡ true) × (s.current_index < task_count))))
      × (((tick s now_ms).event_register ≡ true)
          ↔ ((s.event_register ≡ true) ⊎ Some (IsLate now_ms) s.tasks))
unfolding tick
tick-IsTicked s now_ms a =
    let k = tick_tasks now_ms s.tasks s.memory false in
    let s1 = record s { now_ms = now_ms; tasks = k.tasks; memory = k.memory } in
    let v = tick_tasks-IsTicked now_ms s.tasks s.memory false in
    let w = tick_tasks-woke now_ms s.tasks s.memory false in
    let s' = raise_pendsv true s1 in
    let tasks : (tick s now_ms).tasks ≡ k.tasks = ground arith in
    let pend : (tick s now_ms).pendsv ≡ s'.pendsv = ground arith in
    let reg : (tick s now_ms).event_register ≡ (k.woke || s.event_register) = ground arith in
    let p = raised true s1 in
    (
      rw tasks v,
      ground arith,
      ground arith,
      rw pend (
        λ e. elim (p.0 e) [ inl x ↦ inl x | inr (t, y, z) ↦ inr (y, z) ],
        λ x. p.1 (elim x [ inl e ↦ inl e | inr (y, z) ↦ inr (refl, y, z) ]),
      ),
      rw reg (here k.woke s.event_register (Some (IsLate now_ms) s.tasks) w),
    )
  where
    here :
        (woke old : Bool) (P : Type 0)
        → (woke ≡ true) ↔ ((false ≡ true) ⊎ P)
        → ((woke || old) ≡ true) ↔ ((old ≡ true) ⊎ P)
    here true old P h =
        (λ e. inr (elim (h.0 refl) [ inl f ↦ absurd (ground arith) | inr p ↦ p ]), λ x. refl)
    here false old P h = (
      λ e. inl e,
      λ x. elim x [ inl e ↦ e | inr p ↦ let f = h.1 (inr p) in absurd (ground arith) ],
    )

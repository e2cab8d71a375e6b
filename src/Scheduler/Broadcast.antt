-- ===== src/Scheduler/Broadcast.antt =====
-- What a signal leaves of the pending events, bit by bit, and which tasks it wakes.
use deus_os_stm.Common.{
  ℕ, ◌-◌, ◌≤◌, ◌<◌, ◌≡◌, ◌≢◌, ◌⊎◌, ◌↔◌, inl, inr, sym, Bool, true, false, List, [], ◌∷◌,
  if◌then◌else◌, bit_and, bit_or, arith, Bool-cases, u32_mod, bit, HasBit, bit-lt, bit-bit_and,
  bit-bit_or, bit-zero, ones, bit-complement, bit_and-ones, bit_or-ones,
}
use deus_os_stm.Scheduler.State.{Task, TaskState, Scheduler, Memory, task_count, poke}
use deus_os_stm.Scheduler.Events.{
  is_signalled, signal_tasks, event_signal, raise_pendsv, complement, result_address,
}
use deus_os_stm.Scheduler.Wakeups.{
  Pointwise, Some, Awaits, IsWoken, is_signalled-Awaits, signal_tasks-IsWoken, signal_tasks-woke,
  raised,
}

-- A blocked task that waits for the event `i`.
abbrev pub Waits : ℕ → Task → Type 0
Waits i t = (t.state ≡ TaskState.blocked) × HasBit i t.wait_events

HasBit-bit_and : (i a b : ℕ) → HasBit i (bit_and a b) ↔ (HasBit i a × HasBit i b)
HasBit-bit_and i a b =
    let e = bit-bit_and i a b in
    let x = bit-lt i a in
    let y = bit-lt i b in (λ h. (omega arith, omega arith), λ (h, k). omega arith)

HasBit-bit_or : (i a b : ℕ) → HasBit i (bit_or a b) ↔ (HasBit i a ⊎ HasBit i b)
HasBit-bit_or i a b =
    let e = bit-bit_or i a b in
    let x = bit-lt i a in
    let y = bit-lt i b in
    (λ h. ground arith, λ h. elim h [ inl k ↦ omega arith | inr k ↦ omega arith ])

-- The events of a task that are taken, if it is awaited.
taken :
    (events i : ℕ) (t : Task) (consumed : ℕ)
    → HasBit i
        (if is_signalled events t then bit_or consumed (bit_and t.wait_events events) else consumed)
      ↔ (HasBit i consumed ⊎ (HasBit i events × Waits i t))
taken events i t consumed = elim (Bool-cases (is_signalled events t)) [
  | inl e ↦
      let (b, n) = (is_signalled-Awaits events t).0 e in
      let o = HasBit-bit_or i consumed (bit_and t.wait_events events) in
      let a = HasBit-bit_and i t.wait_events events in
      rw e (
        λ h. elim (o.0 h) [ inl c ↦ inl c | inr c ↦ inr ((a.0 c).1, (b, (a.0 c).0)) ],
        λ x. o.1 (elim x [ inl c ↦ inl c | inr (c, (d, f)) ↦ inr (a.1 (f, c)) ]),
      )
  | inr e ↦
      let a = HasBit-bit_and i t.wait_events events in
      let z = bit-zero i in
      rw e (
        λ h. inl h,
        λ x. elim x [
          | inl c ↦ c
          | inr (c, (d, f)) ↦
              let one = a.1 (f, c) in
              let hit =
                (is_signalled-Awaits events t).1
                  (d, λ n. absurd (let one' : HasBit i 0 = rw (sym n) one in omega arith)) in
              absurd (ground arith)
        ],
      )
]

signal_tasks-consumed :
    (events i : ℕ) (tasks : List Task) (m : Memory) (consumed : ℕ) (woke : Bool)
    → HasBit i (signal_tasks events tasks m consumed woke).consumed
      ↔ (HasBit i consumed ⊎ (HasBit i events × Some (Waits i) tasks))
unfolding signal_tasks
signal_tasks-consumed events i [] m consumed woke =
    (λ h. inl h, λ x. elim x [ inl h ↦ h | inr y ↦ absurd y.1 ])
signal_tasks-consumed events i (t ∷ tasks) m consumed woke =
    let hit = is_signalled events t in
    let matched = bit_and t.wait_events events in
    let ih =
      signal_tasks-consumed events i tasks (if hit then poke m (result_address t) matched else m)
        (if hit then bit_or consumed matched else consumed) (if hit then true else woke) in
    let here = taken events i t consumed in
    (
      λ h. elim (ih.0 h) [
        | inl c ↦ elim (here.0 c) [ inl d ↦ inl d | inr (d, f) ↦ inr (d, inl f) ]
        | inr (d, f) ↦ inr (d, inr f)
      ],
      λ x. ih.1 (elim x [
        | inl c ↦ inl (here.1 (inl c))
        | inr (d, f) ↦ elim f [ inl g ↦ inl (here.1 (inr (d, g))) | inr g ↦ inr (d, g) ]
      ]),
    )

signal_tasks-bound :
    (events : ℕ) (tasks : List Task) (m : Memory) (consumed : ℕ) (woke : Bool)
    → events ≤ ones 32
    → consumed ≤ ones 32
    → (signal_tasks events tasks m consumed woke).consumed ≤ ones 32
unfolding signal_tasks
signal_tasks-bound events [] m consumed woke h k = k
signal_tasks-bound events (t ∷ tasks) m consumed woke h k =
    let hit = is_signalled events t in
    let matched = bit_and t.wait_events events in
    let a = bit_and-ones 32 t.wait_events events h in
    let o = bit_or-ones 32 consumed matched k a in
    signal_tasks-bound events tasks (if hit then poke m (result_address t) matched else m)
      (if hit then bit_or consumed matched else consumed) (if hit then true else woke) h
      (elim (Bool-cases hit) [ inl e ↦ rw e o | inr e ↦ rw e k ])

-- The events that are left, of those that were not taken.
left :
    (pending consumed i : ℕ) (P : Type 0)
    → consumed ≤ ones 32
    → i < 32
    → HasBit i consumed ↔ (HasBit i pending × P)
    → HasBit i (bit_and pending (complement consumed)) ↔ (HasBit i pending × ¬ P)
left pending consumed i P h k c =
    let a = HasBit-bit_and i pending (complement consumed) in
    let n : bit i (complement consumed) ≡ 1 - bit i consumed = bit-complement 32 i consumed k h in
    let two = bit-lt i consumed in
    let cases : (bit i consumed ≡ 1) ⊎ (bit i consumed ≡ 0) = ground arith in
    (
      λ e. ((a.0 e).0, λ p. let one = c.1 ((a.0 e).0, p) in let other = (a.0 e).1 in omega arith),
      λ (e, q). a.1 (e, elim cases [ inl d ↦ absurd (q (c.0 d).1) | inr d ↦ omega arith ]),
    )

-- A signal of at least one event, in an active run with the pending events and the signalled ones
-- 32-bit masks. A blocked task that waits for an event of the two masks is made ready with all the
-- events of the two masks that it waits for; every other task is as it was. An event is pending
-- afterwards exactly if it was pending or is signalled and no blocked task waited for it. PendSV is
-- pending afterwards exactly if it was before, or a task was woken, preemption is enabled and a
-- task runs. The event register is set and the time is as it was.
pub event_signal-IsWoken :
    (s : Scheduler) (events i : ℕ)
    → events ≢ 0
    → s.active ≡ true
    → s.pending_events < u32_mod
    → events < u32_mod
    → i < 32
    → Pointwise (IsWoken (bit_or s.pending_events events)) s.tasks (event_signal s events).tasks
      × (HasBit i (event_signal s events).pending_events
          ↔ ((HasBit i s.pending_events ⊎ HasBit i events) × ¬ Some (Waits i) s.tasks))
      × (((event_signal s events).pendsv ≡ true) ↔ (
          (s.pendsv ≡ true)
          ⊎ (Some (Awaits (bit_or s.pending_events events)) s.tasks
              × (s.preempt_enabled ≡ true)
              × (s.current_index < task_count))))
      × ((event_signal s events).event_register ≡ true)
      × ((event_signal s events).now_ms ≡ s.now_ms)
unfolding event_signal
event_signal-IsWoken s events i ne a small small' k =
    let pending = bit_or s.pending_events events in
    let w = signal_tasks pending s.tasks s.memory 0 false in
    let s1 = record s {
      tasks = w.tasks;
      memory = w.memory;
      pending_events = bit_and pending (complement w.consumed);
    } in
    let tasks : (event_signal s events).tasks ≡ w.tasks = ground arith in
    let rest : (event_signal s events).pending_events ≡ bit_and pending (complement w.consumed) =
      ground arith in
    let pend : (event_signal s events).pendsv ≡ (raise_pendsv w.woke s1).pendsv = ground arith in
    let word : pending ≤ ones 32 =
      bit_or-ones 32 s.pending_events events (omega arith) (omega arith) in
    let bound = signal_tasks-bound pending s.tasks s.memory 0 false word (omega arith) in
    let c = signal_tasks-consumed pending i s.tasks s.memory 0 false in
    let z = bit-zero i in
    let c' : HasBit i w.consumed ↔ (HasBit i pending × Some (Waits i) s.tasks) =
      (λ e. elim (c.0 e) [ inl d ↦ absurd (omega arith) | inr d ↦ d ], λ d. c.1 (inr d)) in
    let l = left pending w.consumed i (Some (Waits i) s.tasks) bound k c' in
    let o = HasBit-bit_or i s.pending_events events in
    let p = raised w.woke s1 in
    let v = signal_tasks-woke pending s.tasks s.memory 0 false in
    (
      rw tasks (signal_tasks-IsWoken pending s.tasks s.memory 0 false),
      rw rest (λ e. (o.0 (l.0 e).0, (l.0 e).1), λ (e, q). l.1 (o.1 e, q)),
      rw pend (
        λ e. elim (p.0 e) [
          | inl x ↦ inl x
          | inr (t, y, u) ↦ inr (elim (v.0 t) [ inl f ↦ absurd (ground arith) | inr x ↦ x ], y, u)
        ],
        λ x. p.1 (elim x [ inl e ↦ inl e | inr (t, y, u) ↦ inr (v.1 (inr t), y, u) ]),
      ),
      ground arith,
      ground arith,
    )

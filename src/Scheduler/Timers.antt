-- ===== src/Scheduler/Timers.antt =====
-- Deadlines on the 32-bit millisecond counter.
use deus_os_stm.Common.{ℕ, ◌+◌, ◌%◌, ◌≤◌, ◌<◌, ◌≡◌, ◌↔◌, true, u32_mod, arith}
use deus_os_stm.Scheduler.State.{time_reached, max_timeout_ms}

-- A deadline set at the time `start` for an allowed timeout, and looked at `elapsed` milliseconds
-- later, less than 2 ^ 31 after it was due: it is reached exactly when the timeout has elapsed, also
-- where the counter has wrapped in between.
pub time_reached_iff :
    (start timeout elapsed : ℕ)
    → timeout ≤ max_timeout_ms
    → elapsed < timeout + 0x80000000
    → (time_reached ((start + elapsed) % u32_mod) ((start % u32_mod + timeout) % u32_mod) ≡ true)
      ↔ (timeout ≤ elapsed)
unfolding time_reached
time_reached_iff start timeout elapsed h k = (λ e. ground arith, λ e. ground arith)

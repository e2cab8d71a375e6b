-- ===== src/Scheduler.antt =====
-- src/kernel/scheduler.c: the static two-task scheduler.
pub mod State
pub mod Select
pub mod Setup
pub mod Events
pub mod Dispatch
pub mod Fairness
pub mod Timers
pub mod Prepared
pub mod Safety
pub mod Wakeups
pub mod Broadcast
mod Examples

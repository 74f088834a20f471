-- ===== src/Scheduler.antt =====
-- internal/scheduler: the alert periods, the tick, the executors of alert jobs and the cleanup.
pub mod Clock
pub mod Period
pub mod Tick
pub mod Cleanup
pub mod Executor
pub mod Target

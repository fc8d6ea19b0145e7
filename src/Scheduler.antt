-- ===== src/Scheduler.antt =====
-- crates/scheduler: what tasks there are, when each may run, and how they run.
pub mod Budget
pub mod Glob
pub mod Task
pub mod Outputs
pub mod Single
pub mod Runner
pub mod Levels

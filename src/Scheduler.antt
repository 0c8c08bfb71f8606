-- ===== src/Scheduler.antt =====
-- skt/scheduler: the queue of tasks, and the choice of the next one.
pub mod Defs
pub mod Choice
pub mod Run
pub mod Settle
pub mod Callback
pub mod Switch
pub mod Rounds
pub mod Workers
pub mod Counting
mod Runs
mod Concurrent

-- ===== src/Timer.antt =====
-- skt/timer: timers in the order of their times, and their manager.
pub mod Order
pub mod Defs
pub mod Invariant
pub mod Rearm
pub mod Expire
pub mod Fire
pub mod Listing
mod Runs

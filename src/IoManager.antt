-- ===== src/IoManager.antt =====
-- skt/iomanager: the events of file descriptors, registered with epoll and handed to a scheduler.
pub mod Defs
pub mod Calls
pub mod Contexts
pub mod Invariant
pub mod Add
pub mod Remove
pub mod Register
pub mod Triggers
mod Runs

-- ===== src/Hook.antt =====
-- skt/hook/hook.cpp: the system calls that wait in a fiber.
pub mod Defs
pub mod Retries
pub mod Sleeps
pub mod Timers
mod Runs

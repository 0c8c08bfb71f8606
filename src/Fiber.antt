-- ===== src/Fiber.antt =====
-- skt/fiber: the states of a fiber and of the thread it runs on. Scheduler shows what they come to.
pub mod Defs

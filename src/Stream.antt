-- ===== src/Stream.antt =====
-- skt/stream: reads and writes of just so many bytes.
pub mod Defs
pub mod Array
pub mod Buffer
mod Runs

-- ===== src/FdManager.antt =====
-- skt/fd_manager: the contexts of file descriptors, and their table.
pub mod Defs
pub mod Context
pub mod Table
pub mod Race
mod Runs

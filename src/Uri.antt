-- ===== src/Uri.antt =====
-- skt/uri/uri.h and the hand-written end of uri.rl: Uri.
pub mod Defs
pub mod Ports

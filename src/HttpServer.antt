-- ===== src/HttpServer.antt =====
-- skt/http/http_server.cpp: HttpServer.
pub mod Session
pub mod Defs
pub mod Sending
pub mod Serve
mod Runs

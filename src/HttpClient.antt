-- ===== src/HttpClient.antt =====
-- skt/http/http_connection.h and http_connection.cpp: requests that a client sends, and its pool of
-- connections.
pub mod Defs
pub mod Pool
pub mod Requests
pub mod Reuse
mod Runs

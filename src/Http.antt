-- ===== src/Http.antt =====
-- skt/http: methods and statuses, the map of header fields, messages, and the dispatch of servlets.
pub mod Texts
pub mod Fields
pub mod Methods
pub mod Messages
pub mod Servlets
pub mod Dispatch
mod Runs

-- ===== src/Receive.antt =====
-- skt/http/http_parser.h, http_parser.cpp, http_session.cpp and http_connection.cpp: how a message is
-- received from a stream.
pub mod Parsers
pub mod Source
pub mod Defs
pub mod Response
pub mod Bytes
pub mod Body
pub mod Head
pub mod Request
pub mod Chunk
pub mod Answer
pub mod Runs

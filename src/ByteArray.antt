-- ===== src/ByteArray.antt =====
-- skt/bytearray: a growing byte buffer in a linked list of nodes, with a cursor.
pub mod Defs
pub mod Invariant
pub mod Write
pub mod Read
pub mod Seek
pub mod Flat
pub mod Codec
pub mod Fixed
pub mod Varint
pub mod Zigzag
pub mod Strings
pub mod Buffers
pub mod Lending
mod Runs

-- ===== src/Endian.antt =====
-- skt/endian/endian.h: byte order, and `byteswap` on words of 2, 4 and 8 bytes.
mod Bytes
unfoldable pub use Bytes.*

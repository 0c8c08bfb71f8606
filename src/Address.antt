-- ===== src/Address.antt =====
-- skt/address: network addresses.
pub mod Bits
pub mod Masks
pub mod Networks
pub mod Hosts
pub mod Ones
pub mod Masks6
pub mod Paths
pub mod Order
mod Runs
pub mod Defs

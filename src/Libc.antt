-- ===== src/Libc.antt =====
-- The routines of kernel/libc.
pub mod Decimal
pub mod Hex
pub mod Memory
pub mod Strings

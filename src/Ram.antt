-- ===== src/Ram.antt =====
-- The bytes of memory that the kernel reads and writes through pointers. An address is a
-- number below 2 ^ 32; no access of the model runs over the end of the address space, so
-- addresses are added as they stand. Words are stored low byte first, as on x86.
pub mod Access
pub mod Frame

-- ===== src/Printf.antt =====
-- source/kernel/libc/printf.c: number() and vsprintf().
pub mod Format
pub mod Kprintf
pub mod Number

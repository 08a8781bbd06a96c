-- ===== src/Arch.antt =====
-- source/kernel/arch: the descriptor tables and the dispatch of interrupts.
pub mod Gdt
pub mod Idt

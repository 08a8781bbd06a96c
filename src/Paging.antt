-- ===== src/Paging.antt =====
-- source/kernel/paging.c: the bitmap of physical frames, page entries and page tables.
pub mod Init
pub mod Entry
pub mod Frames
pub mod Tables

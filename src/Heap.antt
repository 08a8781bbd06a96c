-- ===== src/Heap.antt =====
-- source/kernel/heap.c: the placement allocator and the slab allocator. Each child module has
-- the code of a part of the file; the modules below it prove what they are named for.
pub mod Alloc
pub mod Big
pub mod Bins
pub mod Header
pub mod Slab
pub mod Place
pub mod Skip
pub mod Stack

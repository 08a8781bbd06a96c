-- ===== src/Lib.antt =====
-- A model of the Balloon kernel, an x86 operating system, with theorems about its memory
-- management and the services built on it.
--
-- The parts and their files. Paths on the right are those of the repository.
--   Ram, Machine      memory as a function from addresses to bytes, and the global variables of
--                     source/kernel/heap.c and source/kernel/paging.c as the record Kernel
--   Libc              memcpy, memset, memmove, strlen, strcmp, in Decimal reverse, ctoi, itoa, and in Hex
--                     i2hex: source/kernel/libc/utils.c
--   Printf            Number and Format: number and vsprintf of source/kernel/libc/printf.c; Kprintf:
--                     kprintf, and panic with its stack trace of source/kernel/libc/logging.c
--   Heap              source/kernel/heap.c. Header, Bins, Stack, Skip and Alloc have the code of the
--                     slab allocator klmalloc, in the names of the source less the prefix klmalloc_;
--                     Place has kmalloc_raw and its kin. Slab says what a small bin is, Big what a
--                     block of pages is, Skip/Levels what the skip list of free blocks is; the
--                     other modules below them have the proofs
--   Paging            source/kernel/paging.c: Entry (layout of entries and directories), Frames (the
--                     bitmap), Tables (alloc_frame, free_frame, get_page), Init (init_paging)
--   Console           source/kernel/console.c
--   Arch              source/kernel/arch/gdt.c and source/kernel/arch/idt.c
--   Timer             source/kernel/timer.c
--   Task              source/kernel/process.c, and of source/kernel/task.c the stack of fork and, in
--                     Clone, clone_table and clone_directory
--   Drivers           Atapi: source/drivers/disc/atapi.c with pata.h (Sectors has the read of
--                     sectors, Detect ide_initialize, and the other modules the proofs);
--                     source/drivers/bus/pci.c; Ramfs: source/drivers/fs/ramfs/ramfs.c (Mount has
--                     ramfs_mount) and read_fs of source/kernel/vfs.c
--   Elf               source/kernel/elf.c (Sections has elf_from_multiboot)
--   Base              shared names, words of 32 bits, laws of `&` and `|`
--   Tests             concrete states, and each theorem applied to one
--
-- How the parts interact. paging.c asks heap.c for memory (kmalloc_aligned_physical in get_page),
-- and heap.c grows with sbrk of paging.c and looks a physical address up with get_page. Both act on
-- one Kernel: each function takes the state and returns the new one, so the order of the source's
-- assignments is the order of the `let`s. Structures of the source lie in Ram at the offsets of
-- their fields, so two pointers to one structure share it. timer.c and paging.c register handlers
-- in the table of idt.c. Bytes sent to ports are lists, in order. kprintf turns its format into the
-- text that console.c shows, and the stack trace asks elf.c for names. The ATAPI driver and its
-- drive share a history of accesses: the drive, a parameter, answers by this history, and where it
-- interrupts after an access, ide_irq runs before the driver goes on.
--
-- Bounds and fuel. A 32-bit word is a number below 2 ^ 32, and its arithmetic has the wrap-around
-- written out. A `while` loop over a list in memory takes fuel and returns `none` when that runs
-- out: the loops over the skip list need one step more than it has blocks, those over a string one
-- more than it has characters. The small bins need no fuel, and the other loops count down. In
-- first_frame and elf_lookup_symbol `none` is the end of the function without a return, and in
-- alloc_frame it is that or the kernel's panic. vsprintf needs no more rounds than its format has
-- characters; itoa needs ten. The loops that wait for a drive take fuel, since only the drive ends
-- them. kprintf returns `none` where its text does not fit into its buffer. The loops of init_paging that map pages
-- take rounds, for the placement pointer that bounds them moves.
--
-- Not modelled: assembly and inline assembly (the switch of tasks, the loads of tables and of
-- control registers, the port instructions), vprintf, which nothing calls, the ISO 9660 driver, the
-- start of the kernel in main.c, page_fault, floating point, and the tool that builds the RAM disk.
-- The spin locks and `assert` of heap.c are empty macros.
pub mod Base
pub mod Ram
pub mod Libc
pub mod Machine
pub mod Heap
pub mod Paging
pub mod Console
pub mod Arch
pub mod Timer
pub mod Printf
pub mod Drivers
pub mod Elf
pub mod Task
pub mod Tests

-- ===== src/Tests.antt =====
-- Concrete states, and the theorems at work on them.
pub mod Blocks
pub mod Clone
pub mod Devices
pub mod Disc
pub mod Heap
pub mod Multiboot
pub mod Paging
pub mod Ramdisk
pub mod Screen
pub mod Services
pub mod States
pub mod Text

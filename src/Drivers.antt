-- ===== src/Drivers.antt =====
-- The drivers that are modelled.
pub mod Atapi
pub mod Pci
pub mod Ramfs

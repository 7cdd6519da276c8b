-- ===== src/Boot.antt =====
-- The boot loader, boot/src.
pub mod Paging
pub mod MemoryMap

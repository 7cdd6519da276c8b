-- ===== src/Mm.antt =====
-- Host memory management, hv/src/memory_management.
pub mod Chainload
pub mod FreePage
pub mod Arena
pub mod VmxPages

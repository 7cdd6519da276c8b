-- ===== src/Vm/Linux.antt =====
-- hv/src/vmm/guest_linux_loader.c: a Linux kernel image is put into the memory of a guest.
pub mod SetupHeader
pub mod BootParams
pub mod ZeroPage
pub mod Kernel
pub mod Loader
pub mod Checks
pub mod Pages
pub mod Layout
pub mod Loaded

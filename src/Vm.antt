-- ===== src/Vm.antt =====
-- The virtual machine manager, hv/src/vmm.
pub mod Ept
pub mod Tracked
pub mod Uart
pub mod Msr
pub mod GuestPaging
pub mod Io
pub mod Exit
pub mod Vmcs
pub mod Linux
pub mod Machines
pub mod PageSource
pub mod GuestMemory
pub mod SetUp

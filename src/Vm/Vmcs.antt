-- ===== src/Vm/Vmcs.antt =====
-- hv/src/vmm/vmx_vmcs.c: the initial contents of a machine's VMCS.
pub mod ControlFields
pub mod HostFields
pub mod GuestFields
pub mod Constants
pub mod Bits
pub mod Config
pub mod Table
pub mod Writes
pub mod Create

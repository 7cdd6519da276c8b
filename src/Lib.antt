-- ===== src/Lib.antt =====
-- rkhv is a small type 1 hypervisor. A boot loader (boot/) hands the hypervisor (hv/) a page that
-- describes what is in memory, the chainload page. The hypervisor takes its pages from that map
-- (hv/src/memory_management), builds machines from them (hv/src/vmm) and handles their VM exits. A
-- PANIC ends the run. The modules follow these parts.
--
-- Base: shared names. Base.Result is the outcome of code that may PANIC, one constructor for each
-- PANIC, or that reads out of bounds. Base.Bits relates `&` and `|` to arithmetic. Integers of the
-- source are natural numbers with the wrap-around written out.
--
-- Memory, Paging: common/include/rkhv. Physical memory is a function from the numbers of its
-- 64-bit words. A pointer into the identity map is a physical address where the code only
-- dereferences it, and the virtual address where the address itself matters.
--
-- Mm: hv/src/memory_management. Mm.Chainload is the chainload page and mm_page_used_by_chainload;
-- Mm.FreePage is mm_get_free_page, whose two static variables are a Position that is passed on,
-- and which takes the test of a page as a parameter; its loop has fuel, and one turn more than
-- there are usable pages is enough. Mm.VmxPages is vmm_vmx_pages.c, with rdmsr and the allocator
-- as parameters, and mm_page_is_free. Mm.Arena is arena.c, with the headers as a store by address;
-- the walk over the list has fuel, and more than the number of arenas is enough.
--
-- Vm.Ept: vmx_ept.c over the interface TablePages, the pages that tables are taken from; PageLaws
-- is what the proofs need of it. Vm.PageSource fills it, and the interface of Vm.GuestMemory, with
-- the reserved pool, the tracked pages and mm_get_free_page; its fuel for the turns of the search
-- and for the list of arenas are parameters, enough of which Mm.FreePage and Mm.Arena give.
-- Vm.Tracked: the tracked pages of vm_manager.c and vmm_vm_manager.c, with the linked list as a
-- list and the arena of Mm.Arena for new nodes. Vm.GuestPaging: the walk of a guest's own tables
-- in vm_guest_paging.c, on top of the walk of Vm.Ept. Vm.Uart: the serial port of
-- devices/vmd_8250uart.c; the lines it prints are part of its state. Vm.Msr: vmx_msr.c, where the
-- processor's MSRs and the VMCS are stores and vmread and vmwrite do not fail. Vm.Io: vm_ioports.c
-- and the single I/O instructions of vm_emulated_instructions.c; the handlers of the devices are
-- functions on a shared state. Vm.Exit: vmx_vmexit.c and the instructions that it calls.
-- Exit.Strings has the string instructions, whose REP loop has fuel, and RCX is enough;
-- Exit.Handler has the handler from reading the VMCS to writing it, over the ExitState of
-- vmx_vmexit.h, with whether each VMX instruction succeeds as a parameter.
--
-- Text: hv/src/string.c and boot/src/string.c, a buffer being a list of bytes and a pointer into
-- it an index.
--
-- Vm.Machines: the devices and the count of reserved tables of vm_manager.c. Vm.GuestMemory: the
-- allocation of a machine's memory, over MemoryPages, the pages that it takes and tracks;
-- MemoryLaws is what its proof needs of them. Interrupts: the gates of interrupts.c. Boot.Paging:
-- boot/src/paging.c, with AllocatePages as a parameter.
--
-- Vm.Vmcs: vmx_vmcs.c with the constants of its header. The three kinds of fields are enumerations
-- with their encodings; the table, the loop that writes it and the function around it are a file
-- each, and the instructions are functions that answer whether they succeed.
--
-- Vm.SetUp: hv/src/xsave.c and vmx_init.c, with CPUID, the MSRs, VMXON and the page allocator as
-- parameters; set_up calls them in the order of hvmain in hv/src/main.c.
--
-- Vm.Linux: guest_linux_loader.c with the structures of guest_linux_loader_defs.h. The header of
-- the image and the boot parameters are records of offsets and sizes; the zeropage is a page of
-- bytes that is built by Linux.ZeroPage and stored at once. Linux.Layout has the guest that a call
-- of the whole function leaves, Linux.Loaded its memory. Memory.Bytes reads and copies bytes of
-- the memory.
--
-- Boot.MemoryMap: the conversion of the firmware's memory map in boot/src/main.c, over the table
-- of runs of the chainload page.
--
-- Tests: the theorems applied to concrete data.
--
-- Not modelled: the rest of the boot loader, segment descriptors, str_printf_core, the rest of
-- hvmain; console output; assembly and single machine instructions.
pub mod Base
pub mod Memory
pub mod Paging
pub mod Mm
pub mod Text
pub mod Vm
pub mod Boot
pub mod Interrupts
pub mod Tests

-- ===== src/Vm/Exit.antt =====
-- hv/src/vmm/vmx_vmexit.c with the instructions of vm_emulated_instructions.c that it calls
-- directly. The handler itself stands in Vm.Exit.Handler, over the string I/O of Vm.Exit.Strings.
pub mod Io
pub mod Strings
pub mod Rep
pub mod Handler
pub mod Keeps
pub mod Emulated
pub mod Resume
use rkhv.Base.{
  ℕ, ◌+◌, ◌*◌, ◌/◌, ◌%◌, ◌^◌, ◌-◌, bit_and, bit_or, Bool, true, false, ◌&&◌, ◌||◌, not, leb, ◌==◌,
  nonzero, if◌then◌else◌,
}
use rkhv.Base.Result.{
  vmx_assert, Result, ok, panic, out_of_bounds, ◌>>=◌, unsupported_cr_write, unsupported_cr_read,
  unsupported_cr_access, xcr_index, xcr0_bit_zero, xcr0_unsupported, unsupported_io,
  unsupported_msr, vm_halted, unsupported_exit,
}
use rkhv.Vm.Vmcs.ControlFields.{control_encoding, vmcs_cf_cr4_read_shadow}
use rkhv.Vm.Io.{Size, b, w, d}

-- The registers of vmx_vmexit_state_t. `gpr` is indexed as possible_gpr, whose entry 4 is `rsp`.
pub record VmState : Type 0 where
  pub gpr : ℕ → ℕ
  pub rip : ℕ
  pub rsp : ℕ
  pub cr3 : ℕ
  pub cr4 : ℕ
  pub cr4_read_shadow : ℕ
  pub xcr0 : ℕ

abbrev pub rax : ℕ
rax = 0

abbrev pub rcx : ℕ
rcx = 1

abbrev pub rdx : ℕ
rdx = 2

abbrev pub rbx : ℕ
rbx = 3

abbrev pub cr4_vmxe : ℕ
cr4_vmxe = 2 ^ 13

-- `possible_gpr[i]`, read and written.
unfoldable pub get_gpr : ℕ → VmState → ℕ
get_gpr i s = if i == 4 then s.rsp else s.gpr i

unfoldable pub set_gpr : ℕ → ℕ → VmState → VmState
set_gpr i v s =
    if i == 4 then record s { rsp = v } else record s { gpr = λ j. if j == i then v else s.gpr j }

-- The values of RAX, RBX, RCX and RDX.
pub record CpuidRegs : Type 0 where
  pub a : ℕ
  pub b : ℕ
  pub c : ℕ
  pub d : ℕ

unfoldable pub vm_emulated_instruction_cpuid : (CpuidRegs → CpuidRegs) → VmState → VmState
unfolding set_gpr
vm_emulated_instruction_cpuid cpuid s =
    let r = cpuid (record { a = s.gpr rax; b = s.gpr rbx; c = s.gpr rcx; d = s.gpr rdx }) in
    if leb 0x40000000 (s.gpr rax) && leb (s.gpr rax) 0x4FFFFFFF
    then s
    else set_gpr rdx r.d (set_gpr rcx r.c (set_gpr rbx r.b (set_gpr rax r.a s)))

-- `vmwrite` is whether the write of a field succeeds.
unfoldable pub vm_emulated_instruction_mov_to_cr : (ℕ → Bool) → ℕ → ℕ → VmState → Result VmState
unfolding vmx_assert
vm_emulated_instruction_mov_to_cr vmwrite crn new_cr s =
    if crn == 3
    then ok (record s { cr3 = new_cr })
    else if crn == 4
    then vmx_assert (vmwrite (control_encoding vmcs_cf_cr4_read_shadow))
        (record s { cr4 = bit_or new_cr cr4_vmxe; cr4_read_shadow = bit_and new_cr cr4_vmxe })
    else panic unsupported_cr_write

unfoldable pub vm_emulated_instruction_mov_from_cr : ℕ → VmState → Result ℕ
vm_emulated_instruction_mov_from_cr crn s = if crn == 3 then ok s.cr3 else panic unsupported_cr_read

unfoldable pub vmx_vmexit_cr_accesses : (ℕ → Bool) → ℕ → VmState → Result VmState
unfolding vm_emulated_instruction_mov_to_cr vm_emulated_instruction_mov_from_cr get_gpr set_gpr
vmx_vmexit_cr_accesses vmwrite exit_qualification s =
    let crn = exit_qualification % 16 in
    let access_type = exit_qualification / 2 ^ 4 % 4 in
    let gpr = exit_qualification / 2 ^ 8 % 16 in
    if access_type == 0
    then vm_emulated_instruction_mov_to_cr vmwrite crn (get_gpr gpr s) s
    else if access_type == 1
    then (vm_emulated_instruction_mov_from_cr crn s >>= λ v. ok (set_gpr gpr v s))
    else panic unsupported_cr_access

unfoldable pub vm_emulated_instruction_xsetbv : ℕ → VmState → Result VmState
vm_emulated_instruction_xsetbv xsave_host_xcr0 s =
    let new_xcr0 = bit_or (s.gpr rdx * 2 ^ 32 % 2 ^ 64) (s.gpr rax % 2 ^ 32) in
    if nonzero (s.gpr rcx)
    then panic xcr_index
    else if not (bit_and new_xcr0 1 == 1)
    then panic xcr0_bit_zero
    else if nonzero (bit_and new_xcr0 (2 ^ 64 - 1 - xsave_host_xcr0)) || bit_and new_xcr0 0x6 == 0x4
    then panic xcr0_unsupported
    else ok (record s { xcr0 = new_xcr0 })

pub data Direction : Type 0 where
  io_out io_in : Direction

pub data Kind : Type 0 where
  single str strrep : Kind

-- An entry of emulated_io_instructions, with the port.
pub record IoInstruction : Type 0 where
  pub direction : Direction
  pub size : Size
  pub kind : Kind
  pub port : ℕ

-- The row of the table for a size: size 2 has none, and its entries are NULL.
unfoldable pub with_size : (Size → Result IoInstruction) → ℕ → Result IoInstruction
with_size f size =
    if size == 0
    then f b
    else if size == 1
    then f w
    else if size == 3
    then f d
    else panic unsupported_io

-- The choice that vmx_vmexit_io makes.
unfoldable pub vmx_vmexit_io : ℕ → Result IoInstruction
unfolding with_size
vmx_vmexit_io exit_qualification =
    let string = exit_qualification / 2 ^ 4 % 2 == 1 in
    let rep = exit_qualification / 2 ^ 5 % 2 == 1 in
    let direction : Direction = if exit_qualification / 2 ^ 3 % 2 == 0 then io_out else io_in in
    let port = exit_qualification / 2 ^ 16 % 2 ^ 16 in
    with_size
      (λ size.
        if not string && not rep
        then ok (record { direction = direction; size = size; kind = single; port = port })
        else if string && not rep
        then ok (record { direction = direction; size = size; kind = str; port = port })
        else if string && rep
        then ok (record { direction = direction; size = size; kind = strrep; port = port })
        else panic unsupported_io)
      (exit_qualification % 4)

unfoldable pub advance : ℕ → VmState → VmState
advance instruction_length s = record s { rip = (s.rip + instruction_length) % 2 ^ 64 }

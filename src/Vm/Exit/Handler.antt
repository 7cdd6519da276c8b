-- ===== src/Vm/Exit/Handler.antt =====
-- vmx_vmexit_handler of hv/src/vmm/vmx_vmexit.c: the registers are read from the VMCS, the exit is
-- handled, and they are written back.
use rkhv.Base.{Bool, [], ◌∷◌, ℕ, List, ◌==◌, if◌then◌else◌}
use rkhv.Base.Result.{
  vmx_assert, Result, ok, panic, ◌>>=◌, unsupported_msr, vm_halted, unsupported_exit,
}
use rkhv.Vm.Exit.{
  VmState, CpuidRegs, rax, set_gpr, IoInstruction, io_out, io_in, single, str, strrep,
  vm_emulated_instruction_cpuid, vmx_vmexit_cr_accesses, vmx_vmexit_io,
  vm_emulated_instruction_xsetbv, advance,
}
use rkhv.Vm.Exit.Strings.{
  ExitState, vm_emulated_instruction_outs, vm_emulated_instruction_ins, vm_emulated_instruction_rep,
}
use rkhv.Vm.Io.{Device, vm_emulated_instruction_out, vm_emulated_instruction_in}
use rkhv.Vm.Msr.{put, vmx_msr_vmexit, vmx_msr_vmresume}
use rkhv.Mm.Arena.{Ptr}
use rkhv.Vm.Machines.{vm_manager_get_current_vm}
use rkhv.Vm.Vmcs.ControlFields.{control_encoding, vmcs_cf_cr4_read_shadow}
use rkhv.Vm.Vmcs.GuestFields.{
  guest_encoding, vmcs_guest_rip, vmcs_guest_rsp, vmcs_guest_rflags, vmcs_guest_cr0, vmcs_guest_cr3,
  vmcs_guest_cr4,
}

abbrev pub vmcs_exit_reason : ℕ
vmcs_exit_reason = 0x00004402

abbrev pub vmcs_vm_exit_instruction_length : ℕ
vmcs_vm_exit_instruction_length = 0x0000440C

abbrev pub vmcs_exit_qualification : ℕ
vmcs_exit_qualification = 0x00006400

-- The function that vmx_vmexit_io chose.
module _ {S : Type 0} (devices : List (Device S)) where
  unfoldable pub emulated_io_instruction : IoInstruction → ExitState S → Result (ExitState S)
  emulated_io_instruction i s = elim i.direction [
    | io_out ↦ elim i.kind [
      | single ↦
          vm_emulated_instruction_out i.size i.port ((s.vm_state).gpr rax) devices s.device_data
          >>= λ d. ok (record s { device_data = d })
      | str ↦ vm_emulated_instruction_outs devices i.size i.port s
      | strrep ↦ vm_emulated_instruction_rep (vm_emulated_instruction_outs devices i.size i.port) s
    ]
    | io_in ↦ elim i.kind [
      | single ↦
          vm_emulated_instruction_in i.size i.port ((s.vm_state).gpr rax) devices s.device_data
          >>= λ r. ok (record s { vm_state = set_gpr rax r.0 s.vm_state; device_data = r.1 })
      | str ↦ vm_emulated_instruction_ins devices i.size i.port s
      | strrep ↦ vm_emulated_instruction_rep (vm_emulated_instruction_ins devices i.size i.port) s
    ]
  ]

-- An instruction that works on the registers alone.
unfoldable pub on_registers :
    {S : Type 0} → (VmState → Result VmState) → ExitState S → Result (ExitState S)
on_registers f s = f s.vm_state >>= λ t. ok (record s { vm_state = t })

-- `vm_state.rip += instruction_length`
unfoldable pub advance_rip : {S : Type 0} → ℕ → ExitState S → ExitState S
advance_rip instruction_length s = record s { vm_state = advance instruction_length s.vm_state }

-- What the instructions of VMX answer: whether a field can be read or written, whether VMPTRST
-- succeeds and the pointer that it gives; and vm_manager_current_vm with the regions of machines.
pub record Vmx : Type 0 where
  pub vmread : ℕ → Bool
  pub vmwrite : ℕ → Bool
  pub vmptrst : Bool
  pub curr_vmcs_region : ℕ
  pub current_vm : Ptr
  pub vmcs_region : Ptr → ℕ

-- VMX_ASSERT for each of some fields.
unfoldable pub vmx_assert_each : {A : Type 0} → (ℕ → Bool) → List ℕ → A → Result A
unfolding vmx_assert
vmx_assert_each succeeds [] a = ok a
vmx_assert_each succeeds (field ∷ fields) a =
    vmx_assert (succeeds field) a >>= vmx_assert_each succeeds fields

abbrev pub exit_fields : List ℕ
exit_fields = vmcs_exit_reason ∷ vmcs_exit_qualification ∷ vmcs_vm_exit_instruction_length ∷ []

-- The registers, and the fields of VMX_MSR_LIST.
abbrev pub register_fields : List ℕ
unfolding guest_encoding
register_fields =
    guest_encoding vmcs_guest_rip
    ∷ guest_encoding vmcs_guest_rsp
    ∷ guest_encoding vmcs_guest_rflags
    ∷ guest_encoding vmcs_guest_cr0
    ∷ guest_encoding vmcs_guest_cr3
    ∷ guest_encoding vmcs_guest_cr4
    ∷ 0x2806
    ∷ 0x680E
    ∷ 0x6810
    ∷ []

-- The state once all of them are read: the registers out of the VMCS, and the MSRs.
unfoldable pub state_read : {S : Type 0} → ExitState S → ExitState S
state_read s =
    let vmcs = (s.msr_state).vmcs in
    record s {
      vm_state = record (s.vm_state) {
        rip = vmcs (guest_encoding vmcs_guest_rip);
        rsp = vmcs (guest_encoding vmcs_guest_rsp);
        cr3 = vmcs (guest_encoding vmcs_guest_cr3);
        cr4 = vmcs (guest_encoding vmcs_guest_cr4);
        cr4_read_shadow = vmcs (control_encoding vmcs_cf_cr4_read_shadow);
      };
      rflags = vmcs (guest_encoding vmcs_guest_rflags);
      cr0 = vmcs (guest_encoding vmcs_guest_cr0);
      msr_state = vmx_msr_vmexit s.msr_state;
    }

unfoldable pub read_state : {S : Type 0} → Vmx → ExitState S → Result (ExitState S)
unfolding vmx_assert_each
read_state vmx s = vmx_assert_each vmx.vmread register_fields (state_read s)

-- The state once all of them are written: the registers into the VMCS, and the MSRs. The shadow of
-- CR4 takes its value here, though MOV to CR4 writes it at once.
unfoldable pub state_written : {S : Type 0} → ExitState S → ExitState S
state_written s =
    let r = s.vm_state in
    let vmcs =
      put
        (put
          (put
            (put
              (put
                (put
                  (put (s.msr_state).vmcs (control_encoding vmcs_cf_cr4_read_shadow)
                    r.cr4_read_shadow)
                  (guest_encoding vmcs_guest_rip) r.rip)
                (guest_encoding vmcs_guest_rsp) r.rsp)
              (guest_encoding vmcs_guest_rflags) s.rflags)
            (guest_encoding vmcs_guest_cr0) s.cr0)
          (guest_encoding vmcs_guest_cr3) r.cr3)
        (guest_encoding vmcs_guest_cr4) r.cr4 in
    record s { msr_state = vmx_msr_vmresume (record (s.msr_state) { vmcs = vmcs }) }

unfoldable pub write_state : {S : Type 0} → Vmx → ExitState S → Result (ExitState S)
unfolding vmx_assert_each
write_state vmx s = vmx_assert_each vmx.vmwrite register_fields (state_written s)

module _ {S : Type 0} (vmx : Vmx) (cpuid : CpuidRegs → CpuidRegs) (xsave_host_xcr0 : ℕ)
    (devices : List (Device S)) where
  -- The switch over the exit reason.
  unfoldable pub handle_exit : ℕ → ℕ → ℕ → ExitState S → Result (ExitState S)
  handle_exit exit_reason exit_qualification instruction_length s =
      if exit_reason == 10
      then (on_registers (λ r. ok (vm_emulated_instruction_cpuid cpuid r)) s >>= λ t.
          ok (advance_rip instruction_length t))
      else if exit_reason == 28
      then (on_registers (vmx_vmexit_cr_accesses vmx.vmwrite exit_qualification) s >>= λ t.
          ok (advance_rip instruction_length t))
      else if exit_reason == 30
      then (vmx_vmexit_io exit_qualification >>= λ i.
          emulated_io_instruction devices i s >>= λ t. ok (advance_rip instruction_length t))
      else if exit_reason == 31
      then panic unsupported_msr
      else if exit_reason == 32
      then panic unsupported_msr
      else if exit_reason == 55
      then (on_registers (vm_emulated_instruction_xsetbv xsave_host_xcr0) s >>= λ t.
          ok (advance_rip instruction_length t))
      else if exit_reason == 12
      then panic vm_halted
      else panic unsupported_exit

  unfoldable pub vmx_vmexit_handler : ExitState S → Result (ExitState S)
  unfolding vmx_assert_each
  vmx_vmexit_handler s =
      let vmcs = (s.msr_state).vmcs in
      vmx_assert_each vmx.vmread exit_fields s >>= λ _. vmx_assert vmx.vmptrst s >>= λ _.
      vm_manager_get_current_vm vmx.current_vm vmx.vmcs_region vmx.curr_vmcs_region >>= λ _.
      read_state vmx s >>= λ r.
      handle_exit (vmcs vmcs_exit_reason) (vmcs vmcs_exit_qualification)
        (vmcs vmcs_vm_exit_instruction_length) r
      >>= write_state vmx

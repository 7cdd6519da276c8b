-- ===== src/Tests/ExitRuns.antt =====
-- VM exits of a guest whose tables map everything to the first pages.
use rkhv.Base.{true, ℕ, ◌≡◌, arith, [], ◌∷◌, ◌==◌, if◌then◌else◌}
use rkhv.Base.Result.{ok, ◌>>=◌}
use rkhv.Tests.VmRuns.{guest, device, msr_state}
use rkhv.Vm.Exit.{CpuidRegs, rcx}
use rkhv.Vm.Exit.Strings.{
  ExitState, rsi, mode_of, vm_emulated_instruction_outs, vm_emulated_instruction_rep,
}
use rkhv.Vm.Exit.Rep.{out_elements, after_outs, vm_emulated_instruction_rep-out_elements}
use rkhv.Vm.Exit.Handler.{
  Vmx, vmx_vmexit_handler, vmcs_exit_reason, vmcs_exit_qualification,
  vmcs_vm_exit_instruction_length,
}
use rkhv.Vm.Exit.Resume.{Outcome, vmx_vmexit_handler-Outcome}
use rkhv.Vm.Io.{b}
use rkhv.Vm.Vmcs.GuestFields.{guest_encoding, vmcs_guest_rip}

-- REP OUTSB of three bytes to port 0x3f8.
abbrev rep_outsb : ℕ → ℕ
rep_outsb field =
    if field == vmcs_exit_reason
    then 30
    else if field == vmcs_exit_qualification
    then 0x3f80030
    else if field == vmcs_vm_exit_instruction_length
    then 2
    else if field == guest_encoding vmcs_guest_rip
    then 0x401000
    else 0

abbrev exit_state : ExitState ℕ
exit_state = record {
  vm_state = record {
    gpr = λ i. if i == rcx then 3 else if i == rsi then 0x400010 else 0;
    rip = 0x401000;
    rsp = 0x7ff0;
    cr3 = 0x1000;
    cr4 = 0x20;
    cr4_read_shadow = 0;
    xcr0 = 1;
  };
  rflags = 2;
  cr0 = 0x80000001;
  msr_state = record msr_state { vmcs = rep_outsb; msrs = λ a. 0x500 };
  guest = guest;
  device_data = 0;
}

vm_emulated_instruction_rep-out_elements_example :
    vm_emulated_instruction_rep (vm_emulated_instruction_outs (device ∷ []) b 0x3f8) exit_state ≡ (
      out_elements (device ∷ []) b 0x3f8 guest (mode_of exit_state) 2 3 0x400010 0 >>= λ d.
      ok (after_outs b 3 exit_state d))
vm_emulated_instruction_rep-out_elements_example =
    vm_emulated_instruction_rep-out_elements (device ∷ []) b 0x3f8 exit_state (omega arith)

abbrev no_features : CpuidRegs → CpuidRegs
no_features r = record { a = 0; b = 0; c = 0; d = 0 }

-- The machine at 0x5000, whose VMCS at 0x7000 is the current one.
abbrev vmx : Vmx
vmx = record {
  vmread = λ field. true;
  vmwrite = λ field. true;
  vmptrst = true;
  curr_vmcs_region = 0x7000;
  current_vm = 0x5000;
  vmcs_region = λ vm. 0x7000;
}

vmx_vmexit_handler-Outcome_example :
    Outcome vmx exit_state (vmx_vmexit_handler vmx no_features 7 (device ∷ []) exit_state)
vmx_vmexit_handler-Outcome_example =
    vmx_vmexit_handler-Outcome vmx no_features 7 (device ∷ []) exit_state

-- ===== src/Vm/Exit/Resume.antt =====
-- What vmx_vmexit_handler, hv/src/vmm/vmx_vmexit.c, leaves in the VMCS for the next entry.
use rkhv.Base.{
  Bool, ◌&&◌, not, [], ◌∷◌, inl, inr, Bool-cases, List, ℕ, ◌+◌, ◌%◌, ◌^◌, ◌≡◌, refl, ◌∙◌, arith,
  true, false, List, ◌==◌,
}
use rkhv.Base.Result.{
  vmx_assert, vmx_assert_failed, vm_unsynced, Panic, Result, ok, panic, out_of_bounds, ◌>>=◌,
}
use rkhv.Vm.Machines.{vm_manager_get_current_vm}
use rkhv.Vm.Exit.{CpuidRegs}
use rkhv.Vm.Exit.Strings.{ExitState}
use rkhv.Vm.Exit.Handler.{
  Vmx, vmx_assert_each, exit_fields, register_fields, state_read, state_written, read_state,
  write_state, handle_exit, vmx_vmexit_handler, vmcs_exit_reason, vmcs_exit_qualification,
  vmcs_vm_exit_instruction_length,
}
use rkhv.Vm.Io.{Device}
use rkhv.Vm.Msr.{put, MsrState, vmx_msr_vmresume}
use rkhv.Vm.Vmcs.ControlFields.{control_encoding}
use rkhv.Vm.Vmcs.GuestFields.{guest_encoding, vmcs_guest_rip, vmcs_guest_rflags, vmcs_guest_cr0}
use rkhv.Vm.Exit.Emulated.{
  is_emulated, IsEmulated, handle_exit-IsEmulated, handle_exit-panic, handle_exit-in_bounds,
}

resume-kept :
    (field : ℕ) (m : MsrState)
    → (field == 0x2806) ≡ false
    → (field == 0x680E) ≡ false
    → (field == 0x6810) ≡ false
    → (vmx_msr_vmresume m).vmcs field ≡ m.vmcs field
unfolding vmx_msr_vmresume put
resume-kept field m e1 e2 e3 = ground arith

-- What the next entry takes: the guest goes on behind an instruction that was emulated, with the
-- flags and the mode that it had.
pub record Resumes {S : Type 0} (s t : ExitState S) : Type 0 where
  pub emulated : is_emulated ((s.msr_state).vmcs vmcs_exit_reason) ≡ true
  pub rip :
      (t.msr_state).vmcs (guest_encoding vmcs_guest_rip)
      ≡ ((s.msr_state).vmcs (guest_encoding vmcs_guest_rip)
          + (s.msr_state).vmcs vmcs_vm_exit_instruction_length)
        % 2 ^ 64
  pub rflags :
      (t.msr_state).vmcs (guest_encoding vmcs_guest_rflags)
      ≡ (s.msr_state).vmcs (guest_encoding vmcs_guest_rflags)
  pub cr0 :
      (t.msr_state).vmcs (guest_encoding vmcs_guest_cr0)
      ≡ (s.msr_state).vmcs (guest_encoding vmcs_guest_cr0)

state_written-Resumes :
    {S : Type 0} (s t : ExitState S)
    → is_emulated ((s.msr_state).vmcs vmcs_exit_reason) ≡ true
    → IsEmulated ((s.msr_state).vmcs vmcs_vm_exit_instruction_length) (state_read s) t
    → Resumes s (state_written t)
unfolding state_written state_read put guest_encoding control_encoding
state_written-Resumes s t emulated done = record {
  emulated = emulated;
  rip = resume-kept (guest_encoding vmcs_guest_rip) _ refl refl refl ∙ done.rip;
  rflags = resume-kept (guest_encoding vmcs_guest_rflags) _ refl refl refl ∙ done.rflags;
  cr0 = resume-kept (guest_encoding vmcs_guest_cr0) _ refl refl refl ∙ done.cr0;
}

-- Every VMX instruction around the exit succeeds, and the current machine is the one whose VMCS is
-- current.
abbrev pub each : (ℕ → Bool) → List ℕ → Bool
each succeeds [] = true
each succeeds (field ∷ fields) = succeeds field && each succeeds fields

abbrev pub is_current : Vmx → Bool
is_current vmx = not (vmx.current_vm == 0) && vmx.curr_vmcs_region == vmx.vmcs_region vmx.current_vm

abbrev pub is_sound : Vmx → Bool
is_sound vmx =
    each vmx.vmread exit_fields
    && (vmx.vmptrst
        && (is_current vmx
            && (each vmx.vmread register_fields && each vmx.vmwrite register_fields)))

vmx_assert_each-each :
    {A : Type 0} (succeeds : ℕ → Bool) (fields : List ℕ) (a : A)
    → each succeeds fields ≡ true
    → vmx_assert_each succeeds fields a ≡ ok a
unfolding vmx_assert_each vmx_assert
vmx_assert_each-each succeeds [] a all = refl
vmx_assert_each-each succeeds (field ∷ fields) a all =
    let here : succeeds field ≡ true = ground (arith, all) in
    rw here (vmx_assert_each-each succeeds fields a (ground (arith, all, here)))

vmx_assert_each-panic :
    {A : Type 0} (succeeds : ℕ → Bool) (fields : List ℕ) (a : A)
    → each succeeds fields ≡ false
    → vmx_assert_each succeeds fields a ≡ panic vmx_assert_failed
unfolding vmx_assert_each vmx_assert
vmx_assert_each-panic succeeds [] a some_fails = cc some_fails
vmx_assert_each-panic succeeds (field ∷ fields) a some_fails = elim (Bool-cases (succeeds field)) [
  | inl here ↦ rw here (vmx_assert_each-panic succeeds fields a (ground (arith, some_fails, here)))
  | inr here ↦ rw here refl
]

vmx_assert-true : {A : Type 0} (b : Bool) (a : A) → b ≡ true → vmx_assert b a ≡ ok a
unfolding vmx_assert
vmx_assert-true b a e = rw e refl

vmx_assert-false :
    {A : Type 0} (b : Bool) (a : A) → b ≡ false → vmx_assert b a ≡ panic vmx_assert_failed
unfolding vmx_assert
vmx_assert-false b a e = rw e refl

-- What each end of the handler says of the exit.
abbrev pub Outcome : {S : Type 0} → Vmx → ExitState S → Result (ExitState S) → Type 0
Outcome vmx s (ok t) = Resumes s t × (is_sound vmx ≡ true)
Outcome vmx s (panic reason) = (((s.msr_state).vmcs vmcs_exit_reason == 10) && is_sound vmx) ≡ false
Outcome vmx s out_of_bounds = ((s.msr_state).vmcs vmcs_exit_reason == 30) ≡ true

-- The run from the switch on, when everything before it succeeds.
outcome :
    {S : Type 0} (vmx : Vmx) (s : ExitState S) (run : Result (ExitState S))
    → (each vmx.vmread exit_fields
        && (vmx.vmptrst && (is_current vmx && each vmx.vmread register_fields)))
      ≡ true
    → ((t : ExitState S)
        → run ≡ ok t
        → (is_emulated ((s.msr_state).vmcs vmcs_exit_reason) ≡ true)
          × IsEmulated ((s.msr_state).vmcs vmcs_vm_exit_instruction_length) (state_read s) t)
    → ((p : Panic) → run ≡ panic p → ((s.msr_state).vmcs vmcs_exit_reason == 10) ≡ false)
    → (run ≡ out_of_bounds → ((s.msr_state).vmcs vmcs_exit_reason == 30) ≡ true)
    → Outcome vmx s (run >>= write_state vmx)
unfolding write_state
outcome vmx s (ok t) before resumes stops loses =
    elim (Bool-cases (each vmx.vmwrite register_fields)) [
      | inl all ↦
          let (emulated, done) = resumes t refl in
          rw (vmx_assert_each-each vmx.vmwrite register_fields (state_written t) all)
            (state_written-Resumes s t emulated done, ground (arith, before, all))
      | inr fails ↦
          rw (vmx_assert_each-panic vmx.vmwrite register_fields (state_written t) fails)
            (ground (arith, fails))
    ]
outcome vmx s (panic p) before resumes stops loses = ground (arith, stops p refl)
outcome vmx s out_of_bounds before resumes stops loses = loses refl

get_current_vm-is_current :
    (vmx : Vmx)
    → is_current vmx ≡ true
    → vm_manager_get_current_vm vmx.current_vm vmx.vmcs_region vmx.curr_vmcs_region
      ≡ ok vmx.current_vm
unfolding vm_manager_get_current_vm
get_current_vm-is_current vmx current = ground (arith, current)

get_current_vm-panic :
    (vmx : Vmx)
    → is_current vmx ≡ false
    → vm_manager_get_current_vm vmx.current_vm vmx.vmcs_region vmx.curr_vmcs_region
      ≡ panic vm_unsynced
unfolding vm_manager_get_current_vm
get_current_vm-panic vmx unsynced = ground (arith, unsynced)

module _ {S : Type 0} (vmx : Vmx) (cpuid : CpuidRegs → CpuidRegs) (xsave_host_xcr0 : ℕ)
    (devices : List (Device S)) where
  -- The handler comes back from CPUID, from accesses to control registers, from I/O and from
  -- XSETBV at most, and only when the VMX instructions succeed and the machine is the current one.
  -- When it does, the VMCS holds RIP behind the instruction, modulo 2^64, and the RFLAGS and the
  -- CR0 of before. With all of these it comes back from CPUID, and only I/O may reach out of an
  -- array.
  pub vmx_vmexit_handler-Outcome :
      (s : ExitState S) → Outcome vmx s (vmx_vmexit_handler vmx cpuid xsave_host_xcr0 devices s)
  unfolding vmx_vmexit_handler read_state
  vmx_vmexit_handler-Outcome s =
      let reason = (s.msr_state).vmcs vmcs_exit_reason in
      let qualification = (s.msr_state).vmcs vmcs_exit_qualification in
      let length = (s.msr_state).vmcs vmcs_vm_exit_instruction_length in
      elim (Bool-cases (each vmx.vmread exit_fields)) [
        | inr e ↦ rw (vmx_assert_each-panic vmx.vmread exit_fields s e) (ground (arith, e))
        | inl e1 ↦
            rw (vmx_assert_each-each vmx.vmread exit_fields s e1) (elim (Bool-cases vmx.vmptrst) [
              | inr e ↦ rw (vmx_assert-false vmx.vmptrst s e) (ground (arith, e))
              | inl e2 ↦ rw (vmx_assert-true vmx.vmptrst s e2) (elim (Bool-cases (is_current vmx)) [
                | inr e ↦ rw (get_current_vm-panic vmx e) (ground (arith, e))
                | inl e3 ↦
                    rw (get_current_vm-is_current vmx e3)
                      (elim (Bool-cases (each vmx.vmread register_fields)) [
                        | inr e ↦
                            rw (vmx_assert_each-panic vmx.vmread register_fields (state_read s) e)
                              (ground (arith, e))
                        | inl e4 ↦
                            rw (vmx_assert_each-each vmx.vmread register_fields (state_read s) e4) (
                              outcome vmx s
                                (handle_exit vmx cpuid xsave_host_xcr0 devices reason qualification
                                  length (state_read s))
                                (ground (arith, e1, e2, e3, e4))
                                (λ t.
                                  handle_exit-IsEmulated vmx cpuid xsave_host_xcr0 devices
                                    qualification length reason (state_read s) t)
                                (λ p stopped.
                                  handle_exit-panic vmx cpuid xsave_host_xcr0 devices qualification
                                    length reason (state_read s) p stopped)
                                (λ lost.
                                  handle_exit-in_bounds vmx cpuid xsave_host_xcr0 devices
                                    qualification length reason (state_read s) lost))
                      ])
              ])
            ])
      ]

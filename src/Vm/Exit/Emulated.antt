-- ===== src/Vm/Exit/Emulated.antt =====
-- The switch of vmx_vmexit_handler, hv/src/vmm/vmx_vmexit.c, case by case.
use rkhv.Base.{
  ℕ, ◌+◌, ◌%◌, ◌^◌, ◌≡◌, refl, subst, arith, Bool, true, false, ◌||◌, List, ◌==◌, inl, inr,
  Bool-cases,
}
use rkhv.Base.Result.{vmx_assert, Panic, Result, ok, panic, out_of_bounds, ◌>>=◌, >>=-eq-ok, ok-inj}
use rkhv.Vm.Exit.{
  VmState, CpuidRegs, vm_emulated_instruction_cpuid, vm_emulated_instruction_mov_to_cr,
  vm_emulated_instruction_mov_from_cr, vmx_vmexit_cr_accesses, vmx_vmexit_io,
  vm_emulated_instruction_xsetbv, advance,
}
use rkhv.Vm.Exit.Strings.{ExitState}
use rkhv.Vm.Exit.Handler.{Vmx, on_registers, emulated_io_instruction, advance_rip, handle_exit}
use rkhv.Vm.Exit.Keeps.{
  Keeps, on_registers-Keeps, cpuid-rip, cr_accesses-rip, xsetbv-rip, emulated_io_instruction-Keeps,
}
use rkhv.Vm.Io.{Device}

-- The exits that are emulated: CPUID, accesses to control registers, I/O and XSETBV.
abbrev pub is_emulated : ℕ → Bool
is_emulated reason = reason == 10 || (reason == 28 || (reason == 30 || reason == 55))

-- One emulated instruction: RIP behind it, and RFLAGS, CR0 and the saved MSRs as they were.
pub record IsEmulated {S : Type 0} (instruction_length : ℕ) (s t : ExitState S) : Type 0 where
  pub rip : (t.vm_state).rip ≡ ((s.vm_state).rip + instruction_length) % 2 ^ 64
  pub rflags : t.rflags ≡ s.rflags
  pub cr0 : t.cr0 ≡ s.cr0
  pub msr_state : t.msr_state ≡ s.msr_state

advance_rip-IsEmulated :
    {S : Type 0} (instruction_length : ℕ) (s t u : ExitState S)
    → Keeps s t
    → ◌≡◌ {A = Result (ExitState S)} (ok (advance_rip instruction_length t)) (ok u)
    → IsEmulated instruction_length s u
unfolding advance_rip advance
advance_rip-IsEmulated instruction_length s t u keep ended =
    subst (IsEmulated instruction_length s) (ok-inj ended) (record {
      rip = rw keep.rip refl;
      rflags = keep.rflags;
      cr0 = keep.cr0;
      msr_state = keep.msr_state;
    })

module _ {S : Type 0} (vmx : Vmx) (cpuid : CpuidRegs → CpuidRegs) (xsave_host_xcr0 : ℕ)
    (devices : List (Device S)) (exit_qualification instruction_length : ℕ) where
  registers-IsEmulated :
      (f : VmState → Result VmState) (s t : ExitState S)
      → ((r q : VmState) → f r ≡ ok q → q.rip ≡ r.rip)
      → (on_registers f s >>= λ u. ok (advance_rip instruction_length u)) ≡ ok t
      → IsEmulated instruction_length s t
  registers-IsEmulated f s t keep done =
      let (u, ran, ended) = >>=-eq-ok (on_registers f s) _ done in
      advance_rip-IsEmulated instruction_length s u t (on_registers-Keeps f s u keep ran) ended

  io-IsEmulated :
      (s t : ExitState S)
      → (vmx_vmexit_io exit_qualification >>= λ i.
          emulated_io_instruction devices i s >>= λ u. ok (advance_rip instruction_length u))
        ≡ ok t
      → IsEmulated instruction_length s t
  io-IsEmulated s t done =
      let (i, chosen, rest) = >>=-eq-ok (vmx_vmexit_io exit_qualification) _ done in
      let (u, ran, ended) = >>=-eq-ok (emulated_io_instruction devices i s) _ rest in
      advance_rip-IsEmulated instruction_length s u t
        (emulated_io_instruction-Keeps devices i s u ran) ended

  pub handle_exit-IsEmulated :
      (exit_reason : ℕ) (s t : ExitState S)
      → handle_exit vmx cpuid xsave_host_xcr0 devices exit_reason exit_qualification
          instruction_length s
        ≡ ok t
      → (is_emulated exit_reason ≡ true) × IsEmulated instruction_length s t
  unfolding handle_exit
  handle_exit-IsEmulated exit_reason s t done = elim (Bool-cases (exit_reason == 10)) [
    | inl e ↦ (
      ground arith,
      registers-IsEmulated (λ r. ok (vm_emulated_instruction_cpuid cpuid r)) s t (cpuid-rip cpuid)
          (rw e at done),
    )
    | inr e10 ↦ elim (Bool-cases (exit_reason == 28)) [
      | inl e ↦ (
        ground arith,
        registers-IsEmulated (vmx_vmexit_cr_accesses vmx.vmwrite exit_qualification) s t
            (cr_accesses-rip vmx.vmwrite exit_qualification) (rw (e10, e) at done),
      )
      | inr e28 ↦ elim (Bool-cases (exit_reason == 30)) [
        | inl e ↦ (ground arith, io-IsEmulated s t (rw (e10, e28, e) at done))
        | inr e30 ↦ elim (Bool-cases (exit_reason == 31)) [
          | inl e ↦ absurd (cc (rw (e10, e28, e30, e) at done))
          | inr e31 ↦ elim (Bool-cases (exit_reason == 32)) [
            | inl e ↦ absurd (cc (rw (e10, e28, e30, e31, e) at done))
            | inr e32 ↦ elim (Bool-cases (exit_reason == 55)) [
              | inl e ↦ (
                ground arith,
                registers-IsEmulated (vm_emulated_instruction_xsetbv xsave_host_xcr0) s t
                    (xsetbv-rip xsave_host_xcr0) (rw (e10, e28, e30, e31, e32, e) at done),
              )
              | inr e55 ↦ elim (Bool-cases (exit_reason == 12)) [
                | inl e ↦ absurd (cc (rw (e10, e28, e30, e31, e32, e55, e) at done))
                | inr e12 ↦ absurd (cc (rw (e10, e28, e30, e31, e32, e55, e12) at done))
              ]
            ]
          ]
        ]
      ]
    ]
  ]

  -- CPUID is always emulated.
  handle_exit-cpuid :
      (exit_reason : ℕ) (s : ExitState S)
      → (exit_reason == 10) ≡ true
      → handle_exit vmx cpuid xsave_host_xcr0 devices exit_reason exit_qualification
          instruction_length s
        ≡ ok (
            advance_rip instruction_length
              (record s { vm_state = vm_emulated_instruction_cpuid cpuid s.vm_state }))
  unfolding handle_exit on_registers
  handle_exit-cpuid exit_reason s e = rw e refl

  pub handle_exit-panic :
      (exit_reason : ℕ) (s : ExitState S) (p : Panic)
      → handle_exit vmx cpuid xsave_host_xcr0 devices exit_reason exit_qualification
          instruction_length s
        ≡ panic p
      → (exit_reason == 10) ≡ false
  handle_exit-panic exit_reason s p stopped = elim (Bool-cases (exit_reason == 10)) [
    | inl e ↦ absurd (cc (handle_exit-cpuid exit_reason s e, stopped))
    | inr e ↦ e
  ]

  -- Only an I/O instruction reaches behind an array.
  pub handle_exit-in_bounds :
      (exit_reason : ℕ) (s : ExitState S)
      → handle_exit vmx cpuid xsave_host_xcr0 devices exit_reason exit_qualification
          instruction_length s
        ≡ out_of_bounds
      → (exit_reason == 30) ≡ true
  unfolding handle_exit on_registers vmx_vmexit_cr_accesses vm_emulated_instruction_mov_to_cr
      vm_emulated_instruction_mov_from_cr vm_emulated_instruction_xsetbv vmx_assert
  handle_exit-in_bounds exit_reason s done = ground arith

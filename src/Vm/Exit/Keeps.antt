-- ===== src/Vm/Exit/Keeps.antt =====
-- The emulated instructions and RIP, RFLAGS, CR0 and the saved MSRs.
use rkhv.Base.{
  ℕ, Bool, zero, suc, ◌+◌, ◌-◌, ◌%◌, ◌^◌, ◌≡◌, refl, ◌∙◌, subst, arith, List, ◌==◌, Bool-cases, inl,
  inr,
}
use rkhv.Base.Result.{vmx_assert, Result, ok, >>=-eq-ok, ok-inj}
use rkhv.Vm.Exit.{
  VmState, CpuidRegs, rax, rcx, set_gpr, Direction, io_out, io_in, Kind, single, str, strrep,
  IoInstruction, vm_emulated_instruction_cpuid, vm_emulated_instruction_mov_to_cr,
  vm_emulated_instruction_mov_from_cr, vmx_vmexit_cr_accesses, vm_emulated_instruction_xsetbv,
}
use rkhv.Vm.Exit.Strings.{
  ExitState, rsi, rdi, mode_of, load_value, vm_emulated_instruction_outs,
  vm_emulated_instruction_ins, rep_loop, vm_emulated_instruction_rep,
}
use rkhv.Vm.Exit.Handler.{emulated_io_instruction, on_registers}
use rkhv.Vm.GuestPaging.{vm_guest_paging_get_host_virtual_address_during_vmexit}
use rkhv.Vm.Io.{
  Size, sizeof, Device, vm_out, vm_in, vm_emulated_instruction_out, vm_emulated_instruction_in,
}

pub record Keeps {S : Type 0} (s t : ExitState S) : Type 0 where
  pub rip : (t.vm_state).rip ≡ (s.vm_state).rip
  pub rflags : t.rflags ≡ s.rflags
  pub cr0 : t.cr0 ≡ s.cr0
  pub msr_state : t.msr_state ≡ s.msr_state

set_gpr-rip : (i v : ℕ) (r : VmState) → (set_gpr i v r).rip ≡ r.rip
unfolding set_gpr
set_gpr-rip i v r = ground arith

Keeps-trans : {S : Type 0} (s t u : ExitState S) → Keeps s t → Keeps t u → Keeps s u
Keeps-trans s t u a b = record {
  rip = b.rip ∙ a.rip;
  rflags = b.rflags ∙ a.rflags;
  cr0 = b.cr0 ∙ a.cr0;
  msr_state = b.msr_state ∙ a.msr_state;
}

-- An instruction on the registers that keeps RIP.
pub on_registers-Keeps :
    {S : Type 0} (f : VmState → Result VmState) (s t : ExitState S)
    → ((r q : VmState) → f r ≡ ok q → q.rip ≡ r.rip)
    → on_registers f s ≡ ok t
    → Keeps s t
unfolding on_registers
on_registers-Keeps f s t keep done =
    let (q, ran, ended) = >>=-eq-ok (f s.vm_state) _ done in
    subst (Keeps s) (ok-inj ended)
      (record { rip = keep s.vm_state q ran; rflags = refl; cr0 = refl; msr_state = refl })

pub cpuid-rip :
    (cpuid : CpuidRegs → CpuidRegs) (r q : VmState)
    → ◌≡◌ {A = Result VmState} (ok (vm_emulated_instruction_cpuid cpuid r)) (ok q)
    → q.rip ≡ r.rip
unfolding vm_emulated_instruction_cpuid set_gpr
cpuid-rip cpuid r q done = subst (λ t. t.rip ≡ r.rip) (ok-inj done) (ground arith)

pub cr_accesses-rip :
    (vmwrite : ℕ → Bool) (exit_qualification : ℕ) (r q : VmState)
    → vmx_vmexit_cr_accesses vmwrite exit_qualification r ≡ ok q
    → q.rip ≡ r.rip
unfolding vmx_vmexit_cr_accesses vm_emulated_instruction_mov_to_cr
    vm_emulated_instruction_mov_from_cr set_gpr vmx_assert
cr_accesses-rip vmwrite exit_qualification r q done = ground arith

pub xsetbv-rip :
    (xsave_host_xcr0 : ℕ) (r q : VmState)
    → vm_emulated_instruction_xsetbv xsave_host_xcr0 r ≡ ok q
    → q.rip ≡ r.rip
unfolding vm_emulated_instruction_xsetbv
xsetbv-rip xsave_host_xcr0 r q done = ground arith

module _ {S : Type 0} (devices : List (Device S)) (size : Size) (port : ℕ) where
  outs-Keeps :
      (s t : ExitState S) → vm_emulated_instruction_outs devices size port s ≡ ok t → Keeps s t
  unfolding vm_emulated_instruction_outs
  outs-Keeps s t done =
      let (hostva, resolved, rest) =
        >>=-eq-ok
          (vm_guest_paging_get_host_virtual_address_during_vmexit s.guest (mode_of s)
            ((s.vm_state).gpr rsi) (sizeof size))
          _ done in
      let (d, printed, ended) =
        >>=-eq-ok (vm_out size port (load_value s.guest size hostva) devices s.device_data) _
          rest in
      subst (Keeps s) (ok-inj ended)
        (record { rip = set_gpr-rip rsi _ s.vm_state; rflags = refl; cr0 = refl; msr_state = refl })

  ins-Keeps :
      (s t : ExitState S) → vm_emulated_instruction_ins devices size port s ≡ ok t → Keeps s t
  unfolding vm_emulated_instruction_ins
  ins-Keeps s t done =
      let (hostva, resolved, rest) =
        >>=-eq-ok
          (vm_guest_paging_get_host_virtual_address_during_vmexit s.guest (mode_of s)
            ((s.vm_state).gpr rdi) (sizeof size))
          _ done in
      let (d, input, ended) = >>=-eq-ok (vm_in size port devices s.device_data) _ rest in
      subst (Keeps s) (ok-inj ended)
        (record { rip = set_gpr-rip rdi _ s.vm_state; rflags = refl; cr0 = refl; msr_state = refl })

rep_loop-Keeps :
    {S : Type 0} (instruction : ExitState S → Result (ExitState S))
    → ((s t : ExitState S) → instruction s ≡ ok t → Keeps s t)
    → (fuel : ℕ) (s t : ExitState S) → rep_loop instruction fuel s ≡ ok t
    → Keeps s t
unfolding rep_loop
rep_loop-Keeps instruction keep zero s t done =
    subst (Keeps s) (ok-inj done)
      (record { rip = refl; rflags = refl; cr0 = refl; msr_state = refl })
rep_loop-Keeps instruction keep (suc fuel) s t done =
    elim (Bool-cases ((s.vm_state).gpr rcx == 0)) [
      | inl finished ↦
          subst (Keeps s) (ok-inj (rw finished at done))
            (record { rip = refl; rflags = refl; cr0 = refl; msr_state = refl })
      | inr more ↦
          let (u, ran, rest) = >>=-eq-ok (instruction s) _ (rw more at done) in
          let first = keep s u ran in
          let next = record u {
            vm_state = set_gpr rcx (((u.vm_state).gpr rcx + 2 ^ 64 - 1) % 2 ^ 64) u.vm_state;
          } in
          Keeps-trans s u t first (
            Keeps-trans u next t
              (record {
                rip = set_gpr-rip rcx _ u.vm_state;
                rflags = refl;
                cr0 = refl;
                msr_state = refl;
              })
              (rep_loop-Keeps instruction keep fuel next t rest))
    ]

module _ {S : Type 0} (devices : List (Device S)) where
  single-Keeps :
      (direction : Direction) (size : Size) (port : ℕ) (s t : ExitState S)
      → emulated_io_instruction devices
          (record { direction = direction; size = size; kind = single; port = port })
          s
        ≡ ok t
      → Keeps s t
  unfolding emulated_io_instruction
  single-Keeps io_out size port s t done =
      let (d, printed, ended) =
        >>=-eq-ok
          (vm_emulated_instruction_out size port ((s.vm_state).gpr rax) devices s.device_data) _
          done in
      subst (Keeps s) (ok-inj ended)
        (record { rip = refl; rflags = refl; cr0 = refl; msr_state = refl })
  single-Keeps io_in size port s t done =
      let (d, input, ended) =
        >>=-eq-ok
          (vm_emulated_instruction_in size port ((s.vm_state).gpr rax) devices s.device_data) _
          done in
      subst (Keeps s) (ok-inj ended)
        (record { rip = set_gpr-rip rax _ s.vm_state; rflags = refl; cr0 = refl; msr_state = refl })

  io-Keeps :
      (direction : Direction) (size : Size) (kind : Kind) (port : ℕ) (s t : ExitState S)
      → emulated_io_instruction devices
          (record { direction = direction; size = size; kind = kind; port = port })
          s
        ≡ ok t
      → Keeps s t
  unfolding emulated_io_instruction vm_emulated_instruction_rep
  io-Keeps direction size single port s t done = single-Keeps direction size port s t done
  io-Keeps io_out size str port s t done = outs-Keeps devices size port s t done
  io-Keeps io_in size str port s t done = ins-Keeps devices size port s t done
  io-Keeps io_out size strrep port s t done =
      rep_loop-Keeps (vm_emulated_instruction_outs devices size port) (outs-Keeps devices size port)
        ((s.vm_state).gpr rcx) s t done
  io-Keeps io_in size strrep port s t done =
      rep_loop-Keeps (vm_emulated_instruction_ins devices size port) (ins-Keeps devices size port)
        ((s.vm_state).gpr rcx) s t done

  pub emulated_io_instruction-Keeps :
      (i : IoInstruction) (s t : ExitState S)
      → emulated_io_instruction devices i s ≡ ok t
      → Keeps s t
  emulated_io_instruction-Keeps i s t done = io-Keeps i.direction i.size i.kind i.port s t done

-- ===== src/Vm/Msr/Swap.antt =====
-- The swaps of hv/src/vmm/vmx_msr.c around a VM exit, one after the other.
use rkhv.Base.{ℕ, ◌≡◌, refl, Bool, ◌||◌, ◌==◌, if◌then◌else◌, arith}
use rkhv.Vm.Msr.{Store, MsrState, vmx_msr_vmexit, vmx_msr_vmresume}

-- The MSRs that the code itself backs up: IA32_MISC_ENABLE, IA32_BIOS_SIGN_ID, IA32_XSS and
-- IA32_KERNEL_GS_BASE.
abbrev pub is_rwbk : ℕ → Bool
is_rwbk a = a == 0x1A0 || (a == 0x8B || (a == 0xDA0 || a == 0xC0000102))

-- A VM exit followed by the next entry gives the guest back every MSR of the processor and every
-- field of the VMCS, and the host its backup.
pub vmx_msr_vmexit-vmx_msr_vmresume :
    (s : MsrState)
    → ((q : ℕ) → (vmx_msr_vmresume (vmx_msr_vmexit s)).cpu q ≡ s.cpu q)
      × ((q : ℕ) → (vmx_msr_vmresume (vmx_msr_vmexit s)).vmcs q ≡ s.vmcs q)
      × ((q : ℕ) → (vmx_msr_vmresume (vmx_msr_vmexit s)).host_backup q ≡ s.host_backup q)
unfolding vmx_msr_vmexit vmx_msr_vmresume
vmx_msr_vmexit-vmx_msr_vmresume s = (λ q. ground arith, λ q. ground arith, λ q. ground arith)

-- An entry followed, after the guest has left arbitrary values in the processor's MSRs and in the
-- VMCS, by an exit restores the host's value of every backed up MSR, leaves the others as they
-- are, and shows the guest's values, from the processor or from the VMCS.
pub vmx_msr_vmresume-vmx_msr_vmexit :
    (s : MsrState) (cpu vmcs : Store)
    → let t = vmx_msr_vmexit (record (vmx_msr_vmresume s) { cpu = cpu; vmcs = vmcs }) in
      ((q : ℕ) → t.cpu q ≡ (if is_rwbk q then s.cpu q else cpu q))
      × ((q : ℕ) → (if is_rwbk q then t.msrs q else cpu q) ≡ cpu q)
      × (t.msrs 0xC0000080 ≡ vmcs 0x2806)
      × (t.msrs 0xC0000100 ≡ vmcs 0x680E)
      × (t.msrs 0xC0000101 ≡ vmcs 0x6810)
unfolding vmx_msr_vmexit vmx_msr_vmresume
vmx_msr_vmresume-vmx_msr_vmexit s cpu vmcs =
    (λ q. ground arith, λ q. ground arith, refl, refl, refl)

-- ===== src/Vm/SetUp.antt =====
-- hv/src/xsave.c and hv/src/vmm/vmx_init.c: the processor is made ready for saving the state of
-- its extensions and for VMX. The log is left out.
pub mod Ready
use rkhv.Base.{
  ℕ, ◌+◌, ◌-◌, ◌*◌, ◌/◌, ◌%◌, ◌^◌, bit_and, bit_or, Bool, true, false, not, ltb, ◌==◌, nonzero,
  if◌then◌else◌,
}
use rkhv.Base.Result.{
  vmx_assert, Result, ok, panic, ◌>>=◌, vmcs_region_size, ept_page_walk_length, ept_write_back,
  xsave_area_size_changed,
}
use rkhv.Memory.{page_size}
use rkhv.Mm.VmxPages.{VmxPages, vmx_get_vmxon_region, ia32_vmx_basic}
use rkhv.Vm.Exit.{CpuidRegs, cr4_vmxe}

abbrev pub cr4_osfxsr : ℕ
cr4_osfxsr = 2 ^ 9

abbrev pub cr4_osxsave : ℕ
cr4_osxsave = 2 ^ 18

abbrev pub ia32_vmx_ept_vpid_cap : ℕ
ia32_vmx_ept_vpid_cap = 0x48C

abbrev pub ia32_vmx_ept_vpid_cap_page_walk_length_4 : ℕ
ia32_vmx_ept_vpid_cap_page_walk_length_4 = 2 ^ 6

abbrev pub ia32_vmx_ept_vpid_cap_write_back : ℕ
ia32_vmx_ept_vpid_cap_write_back = 2 ^ 14

-- The registers of the processor that are set.
pub record Control : Type 0 where
  pub cr4 : ℕ
  pub xcr0 : ℕ

-- The global variables of xsave.c.
pub record Xsave : Type 0 where
  pub xsave_host_xcr0 : ℕ
  pub xsave_area_size : ℕ

-- `cpuid` is leaf 0x0D with subleaf 0, which depends on XCR0.
unfoldable pub xsave_setup : (ℕ → CpuidRegs) → Control → Result (Control × Xsave)
xsave_setup cpuid s =
    let accepted = cpuid s.xcr0 in
    let maximum_xsave_area_size = accepted.c % 2 ^ 32 in
    let xsave_host_xcr0 = bit_or (accepted.d % 2 ^ 32 * 2 ^ 32) (accepted.a % 2 ^ 32) in
    let current_xsave_area_size = (cpuid xsave_host_xcr0).b % 2 ^ 32 in
    if not (maximum_xsave_area_size == current_xsave_area_size)
    then panic xsave_area_size_changed
    else ok (
      record { cr4 = bit_or (bit_or s.cr4 cr4_osfxsr) cr4_osxsave; xcr0 = xsave_host_xcr0 },
      record { xsave_host_xcr0 = xsave_host_xcr0; xsave_area_size = maximum_xsave_area_size },
    )

-- The page allocator with its state, the processor's MSRs, and whether VMXON succeeds on a page.
module _ {R : Type 0} (mm_get_free_page : R → Result (ℕ × R)) (rdmsr : ℕ → ℕ)
    (vmxon : ℕ → Bool) where
  unfoldable pub vmx_setup : Control → VmxPages → R → Result (Control × VmxPages × R)
  vmx_setup s pages r =
      let basic = rdmsr ia32_vmx_basic in
      let cap = rdmsr ia32_vmx_ept_vpid_cap in
      if ltb page_size (bit_and (basic / 2 ^ 32) 0x1fff)
      then panic vmcs_region_size
      else if not (nonzero (bit_and cap ia32_vmx_ept_vpid_cap_page_walk_length_4))
      then panic ept_page_walk_length
      else if not (nonzero (bit_and cap ia32_vmx_ept_vpid_cap_write_back))
      then panic ept_write_back
      else vmx_get_vmxon_region mm_get_free_page rdmsr pages r >>= λ region.
          vmx_assert (vmxon region.0) (record s { cr4 = bit_or s.cr4 cr4_vmxe }, region.1, region.2)

  -- The calls of hvmain; between them is code that does not set these registers.
  unfoldable pub set_up :
      (ℕ → CpuidRegs) → Control → VmxPages → R → Result (Control × VmxPages × R × Xsave)
  set_up cpuid s pages r =
      xsave_setup cpuid s >>= λ x. vmx_setup x.0 pages r >>= λ v. ok (v.0, v.1, v.2, x.1)

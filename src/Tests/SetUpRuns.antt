-- ===== src/Tests/SetUpRuns.antt =====
-- The set-up on a processor with x87, SSE and AVX.
use rkhv.Base.{ℕ, ◌+◌, ◌*◌, ◌^◌, ◌==◌, true, false, if◌then◌else◌}
use rkhv.Base.Result.{Result, ok}
use rkhv.Mm.VmxPages.{VmxPages, ia32_vmx_basic}
use rkhv.Vm.Exit.{CpuidRegs}
use rkhv.Vm.SetUp.{Control, set_up, ia32_vmx_ept_vpid_cap}
use rkhv.Vm.SetUp.Ready.{Outcome, set_up-Outcome}

abbrev rdmsr : ℕ → ℕ
rdmsr msr =
    if msr == ia32_vmx_basic
    then 0x1000 * 2 ^ 32 + 1
    else if msr == ia32_vmx_ept_vpid_cap
    then 2 ^ 6 + 2 ^ 14
    else 0

abbrev leaf : ℕ → CpuidRegs
leaf xcr0 = record { a = 7; b = if xcr0 == 7 then 832 else 576; c = 832; d = 0 }

abbrev no_pages : VmxPages
no_pages = record {
  vmxon_region_valid = false;
  vmxon_region = 0;
  msr_bitmaps_page_valid = false;
  msr_bitmaps_page = 0;
  memory = λ i. 0;
}

abbrev next_page : ℕ → Result (ℕ × ℕ)
next_page r = ok (r, r + 4096)

abbrev control : Control
control = record { cr4 = 0x20; xcr0 = 1 }

set_up-Outcome_example :
    Outcome next_page rdmsr
      (λ page. true)
      leaf
      control
      no_pages
      0x100000
      (set_up next_page rdmsr (λ page. true) leaf control no_pages 0x100000)
set_up-Outcome_example =
    set_up-Outcome next_page rdmsr (λ page. true) leaf control no_pages 0x100000

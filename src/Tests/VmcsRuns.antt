-- ===== src/Tests/VmcsRuns.antt =====
-- The VMCS of a machine whose processor demands one bit of each control field and allows all.
use rkhv.Base.{ℕ, ◌+◌, ◌≡◌, refl, true, false, arith}
use rkhv.Base.Result.{Result, ok}
use Prim.Native.Nat.{min, max}
use rkhv.Mm.VmxPages.{
  VmxPages, vmx_get_free_vmcs_region, vmx_get_msr_bitmaps_page, store32, on_page,
  vmx_get_vmcs_revision_identifier,
}
use rkhv.Vm.Msr.{vmx_msr_init_bitmaps}
use rkhv.Vm.Vmcs.Bits.{bit}
use rkhv.Vm.Vmcs.ControlFields.{control_encoding, vmcs_cf_pin_based_vm_execution_controls}
use rkhv.Vm.Vmcs.Config.{GdtSegmentDescriptor, GuestState, Cpu}
use rkhv.Vm.Vmcs.Table.{default_vmcs_fields}
use rkhv.Vm.Vmcs.Create.{
  Machine, IsCreated, vmx_create_initialized_vmcs, vmx_create_initialized_vmcs-IsCreated,
  IsCreated-allowed,
}

abbrev flat_segment : GdtSegmentDescriptor
flat_segment = record {
  segment_limit_low = 0xffff;
  base_address_low = 0;
  base_address_mid = 0;
  access = 0x92;
  flags = 0xcf;
  base_address_high = 0;
}

abbrev cpu : Cpu
cpu = record {
  rdmsr = λ msr. 0xffffffff00000001;
  cr0 = 0x80000011;
  cr3 = 0x1000;
  cr4 = 0x2020;
  gdtr_size = 23;
  gdtr_offset = 0x100;
  idtr_size = 4095;
  idtr_offset = 0x200;
  vmx_vmexit = 0x300;
  gdt = λ table index. flat_segment;
}

abbrev linux : GuestState
linux = record {
  rip = 0x1000200;
  rsp = 0;
  cr0 = 0x80000011;
  cr3 = 0x3fff000;
  cr4 = 0x20;
  ia32_efer = 0x500;
  cs = 0x10;
  ds = 0x08;
  gdtr_size = 23;
  gdtr_offset = 0x100;
  idtr_size = 4095;
  idtr_offset = 0x200;
}

abbrev fresh_machine : Machine
fresh_machine = record {
  flags = 2;
  vmcs_region = 0;
  vmcs_config = record { eptp = 0x7000; guest_state = linux };
  vmcs = λ e. 0;
}

abbrev next_page : ℕ → Result (ℕ × ℕ)
next_page p = ok (p, p + 0x1000)

abbrev no_pages : VmxPages
no_pages = record {
  vmxon_region_valid = false;
  vmxon_region = 0;
  msr_bitmaps_page_valid = false;
  msr_bitmaps_page = 0;
  memory = λ a. 0;
}

abbrev region_pages : VmxPages
region_pages = record no_pages {
  memory = store32 0x5000 (vmx_get_vmcs_revision_identifier cpu.rdmsr) (λ a. 0);
}

abbrev both_pages : VmxPages
both_pages = record region_pages {
  msr_bitmaps_page_valid = true;
  msr_bitmaps_page = 0x6000;
  memory = on_page 0x6000 vmx_msr_init_bitmaps region_pages.memory;
}

vmx_create_initialized_vmcs-IsCreated_example :
    (new : Machine) × (vmx_create_initialized_vmcs next_page cpu
        (λ p. true)
        (λ p. true)
        (λ e. true)
        fresh_machine
        no_pages
        0x5000
      ≡ ok (new, both_pages, 0x7000))
    × IsCreated cpu 0x5000 0x6000 fresh_machine new
unfolding vmx_get_free_vmcs_region vmx_get_msr_bitmaps_page
vmx_create_initialized_vmcs-IsCreated_example =
    vmx_create_initialized_vmcs-IsCreated next_page cpu (λ p. true) (λ p. true) (λ e. true)
      fresh_machine no_pages region_pages both_pages 0x5000 0x6000 0x7000 0x5000 0x6000 refl refl
      refl refl refl (λ e h. refl)

abbrev creation :
    (new : Machine) × (vmx_create_initialized_vmcs next_page cpu
        (λ p. true)
        (λ p. true)
        (λ e. true)
        fresh_machine
        no_pages
        0x5000
      ≡ ok (new, both_pages, 0x7000))
    × IsCreated cpu 0x5000 0x6000 fresh_machine new
unfolding vmx_get_free_vmcs_region vmx_get_msr_bitmaps_page
creation =
    vmx_create_initialized_vmcs-IsCreated next_page cpu (λ p. true) (λ p. true) (λ e. true)
      fresh_machine no_pages region_pages both_pages 0x5000 0x6000 0x7000 0x5000 0x6000 refl refl
      refl refl refl (λ e h. refl)

abbrev created : Machine
created = creation.0

-- Bit 0 of the pin-based controls, the row 5 of the table, is not asked for and must be one.
IsCreated-allowed_example :
    bit 0 (created.vmcs (control_encoding vmcs_cf_pin_based_vm_execution_controls))
    ≡ max 1 (min 0 1)
unfolding default_vmcs_fields control_encoding
IsCreated-allowed_example =
    IsCreated-allowed cpu 0x5000 0x6000 fresh_machine created 5 0x4000 0 0x481 0 creation.2 refl
      (λ e. omega (arith, e)) (omega arith)

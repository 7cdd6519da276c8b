-- ===== src/Vm/Vmcs/Config.antt =====
-- What vmx_create_initialized_vmcs of hv/src/vmm/vmx_vmcs.c reads: the configuration of
-- hv/include/rkhv/vmm/vmx_vmcs.h, the descriptors of hv/include/rkhv/segments.h, the processor.
use rkhv.Base.{ℕ, ◌*◌, ◌/◌, ◌^◌, bit_and, bit_or}

-- gdt_segment_descriptor_t
pub record GdtSegmentDescriptor : Type 0 where
  pub segment_limit_low : ℕ
  pub base_address_low : ℕ
  pub base_address_mid : ℕ
  pub access : ℕ
  pub flags : ℕ
  pub base_address_high : ℕ

-- `guest_state` of vmx_initial_vmcs_config_t, with the two fields of gdtr_t and idtr_t.
pub record GuestState : Type 0 where
  pub rip : ℕ
  pub rsp : ℕ
  pub cr0 : ℕ
  pub cr3 : ℕ
  pub cr4 : ℕ
  pub ia32_efer : ℕ
  pub cs : ℕ
  pub ds : ℕ
  pub gdtr_size : ℕ
  pub gdtr_offset : ℕ
  pub idtr_size : ℕ
  pub idtr_offset : ℕ

pub record VmcsConfig : Type 0 where
  pub eptp : ℕ
  pub guest_state : GuestState

-- What is read from the processor, and the address of vmx_vmexit. `gdt` is the table of
-- descriptors at an address.
pub record Cpu : Type 0 where
  pub rdmsr : ℕ → ℕ
  pub cr0 : ℕ
  pub cr3 : ℕ
  pub cr4 : ℕ
  pub gdtr_size : ℕ
  pub gdtr_offset : ℕ
  pub idtr_size : ℕ
  pub idtr_offset : ℕ
  pub vmx_vmexit : ℕ
  pub gdt : ℕ → ℕ → GdtSegmentDescriptor

-- ((flags & 0xf0) << 8) | access
unfoldable pub vmx_read_segment_access_right_from_gdt : ℕ → (ℕ → GdtSegmentDescriptor) → ℕ
vmx_read_segment_access_right_from_gdt segment_selector gdt =
    let segment_descriptor = gdt (segment_selector / 2 ^ 3) in
    bit_or (bit_and segment_descriptor.flags 0xf0 * 2 ^ 8) segment_descriptor.access

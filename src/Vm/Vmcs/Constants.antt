-- ===== src/Vm/Vmcs/Constants.antt =====
-- The feature bits and other constants of hv/src/vmm/vmx_vmcs.h, common/include/rkhv/cr_msr.h,
-- hv/include/rkhv/segments.h and common/include/rkhv/rflags.h that vmx_vmcs.c uses.
use rkhv.Base.{ℕ, ◌-◌, ◌*◌, ◌^◌}

-- `1 << 31` is a negative int, which C extends with ones to 64 bits.
abbrev pub vmcs_cf_ppbvmec_activate_secondary_controls : ℕ
vmcs_cf_ppbvmec_activate_secondary_controls = 2 ^ 64 - 2 ^ 31

abbrev pub vmcs_cf_ppbvmec_hlt_exiting : ℕ
vmcs_cf_ppbvmec_hlt_exiting = 2 ^ 7

abbrev pub vmcs_cf_ppbvmec_unconditional_io_exiting : ℕ
vmcs_cf_ppbvmec_unconditional_io_exiting = 2 ^ 24

abbrev pub vmcs_cf_ppbvmec_use_msr_bitmaps : ℕ
vmcs_cf_ppbvmec_use_msr_bitmaps = 2 ^ 28

abbrev pub vmcs_cf_spbvmec_enable_ept : ℕ
vmcs_cf_spbvmec_enable_ept = 2 ^ 1

abbrev pub vmcs_cf_spbvmec_unrestricted_guest : ℕ
vmcs_cf_spbvmec_unrestricted_guest = 2 ^ 7

abbrev pub vmcs_cf_spbvmec_enable_invpcid : ℕ
vmcs_cf_spbvmec_enable_invpcid = 2 ^ 12

abbrev pub vmcs_cf_spbvmec_enable_xsaves_xrstors : ℕ
vmcs_cf_spbvmec_enable_xsaves_xrstors = 2 ^ 20

abbrev pub vmcs_cf_eptp_write_back : ℕ
vmcs_cf_eptp_write_back = 6

abbrev pub vmcs_cf_eptp_page_walk_length_4 : ℕ
vmcs_cf_eptp_page_walk_length_4 = 3 * 2 ^ 3

abbrev pub vmcs_cf_eptp_physical_address_pml4 : ℕ
vmcs_cf_eptp_physical_address_pml4 = 2 ^ 64 - 2 ^ 12

abbrev pub vmcs_cf_vmex_host_address_space_size : ℕ
vmcs_cf_vmex_host_address_space_size = 2 ^ 9

abbrev pub vmcs_cf_vmex_save_ia32_efer : ℕ
vmcs_cf_vmex_save_ia32_efer = 2 ^ 20

abbrev pub vmcs_cf_vmex_load_ia32_efer : ℕ
vmcs_cf_vmex_load_ia32_efer = 2 ^ 21

abbrev pub vmcs_cf_vmen_ia_32e_mode_guest : ℕ
vmcs_cf_vmen_ia_32e_mode_guest = 2 ^ 9

abbrev pub vmcs_cf_vmen_load_ia32_efer : ℕ
vmcs_cf_vmen_load_ia32_efer = 2 ^ 15

abbrev pub vmcs_invalid_link_pointer : ℕ
vmcs_invalid_link_pointer = 0xffffffffffffffff

abbrev pub vmcs_unusable_segment : ℕ
vmcs_unusable_segment = 2 ^ 16

abbrev pub ia32_efer : ℕ
ia32_efer = 0xC0000080

abbrev pub ia32_vmx_pinbased_ctls : ℕ
ia32_vmx_pinbased_ctls = 0x481

abbrev pub ia32_vmx_procbased_ctls : ℕ
ia32_vmx_procbased_ctls = 0x482

abbrev pub ia32_vmx_exit_ctls : ℕ
ia32_vmx_exit_ctls = 0x483

abbrev pub ia32_vmx_entry_ctls : ℕ
ia32_vmx_entry_ctls = 0x484

abbrev pub ia32_vmx_procbased_ctls2 : ℕ
ia32_vmx_procbased_ctls2 = 0x48B

abbrev pub rkhv_ds : ℕ
rkhv_ds = 0x08

abbrev pub gdt_segment_descriptor_access_system : ℕ
gdt_segment_descriptor_access_system = 0x00

abbrev pub gdt_segment_descriptor_access_present : ℕ
gdt_segment_descriptor_access_present = 0x80

abbrev pub gdt_segment_descriptor_system_type_tss_busy : ℕ
gdt_segment_descriptor_system_type_tss_busy = 0xb

abbrev pub rflags_reserved : ℕ
rflags_reserved = 2 ^ 1

abbrev pub rkhv_stack_top : ℕ
rkhv_stack_top = 0xfffffffffffffff8

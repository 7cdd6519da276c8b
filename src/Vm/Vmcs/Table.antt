-- ===== src/Vm/Vmcs/Table.antt =====
-- The table `default_vmcs_fields` of vmx_create_initialized_vmcs, hv/src/vmm/vmx_vmcs.c.
use rkhv.Base.{ℕ, bit_and, bit_or, List, [], ◌∷◌, ◌++◌}
use rkhv.Vm.Vmcs.Config.{GuestState, VmcsConfig, Cpu, vmx_read_segment_access_right_from_gdt}
use rkhv.Vm.Vmcs.Constants.{
  vmcs_cf_ppbvmec_activate_secondary_controls, vmcs_cf_ppbvmec_hlt_exiting,
  vmcs_cf_ppbvmec_unconditional_io_exiting, vmcs_cf_ppbvmec_use_msr_bitmaps,
  vmcs_cf_spbvmec_enable_ept, vmcs_cf_spbvmec_unrestricted_guest, vmcs_cf_spbvmec_enable_invpcid,
  vmcs_cf_spbvmec_enable_xsaves_xrstors, vmcs_cf_eptp_write_back, vmcs_cf_eptp_page_walk_length_4,
  vmcs_cf_eptp_physical_address_pml4, vmcs_cf_vmex_host_address_space_size,
  vmcs_cf_vmex_save_ia32_efer, vmcs_cf_vmex_load_ia32_efer, vmcs_cf_vmen_ia_32e_mode_guest,
  vmcs_cf_vmen_load_ia32_efer, vmcs_invalid_link_pointer, vmcs_unusable_segment, ia32_efer,
  ia32_vmx_pinbased_ctls, ia32_vmx_procbased_ctls, ia32_vmx_exit_ctls, ia32_vmx_entry_ctls,
  ia32_vmx_procbased_ctls2, rkhv_ds, gdt_segment_descriptor_access_system,
  gdt_segment_descriptor_access_present, gdt_segment_descriptor_system_type_tss_busy,
  rflags_reserved, rkhv_stack_top,
}
use rkhv.Vm.Exit.{cr4_vmxe}
use rkhv.Interrupts.{rkhv_cs}
use rkhv.Vm.Vmcs.ControlFields.{
  control_encoding, vmcs_cf_address_of_msr_bitmaps, vmcs_cf_ept_pointer, vmcs_cf_xss_exiting_bitmap,
  vmcs_cf_pin_based_vm_execution_controls, vmcs_cf_primary_processor_based_vm_execution_controls,
  vmcs_cf_exception_bitmap, vmcs_cf_page_fault_error_code_mask, vmcs_cf_page_fault_error_code_match,
  vmcs_cf_cr3_target_count, vmcs_cf_primary_vm_exit_controls, vmcs_cf_vm_exit_msr_store_count,
  vmcs_cf_vm_exit_msr_load_count, vmcs_cf_vm_entry_controls, vmcs_cf_vm_entry_msr_load_count,
  vmcs_cf_vm_entry_interruption_information_field,
  vmcs_cf_secondary_processor_based_vm_execution_controls, vmcs_cf_cr0_guest_host_mask,
  vmcs_cf_cr4_guest_host_mask, vmcs_cf_cr0_read_shadow, vmcs_cf_cr4_read_shadow,
}
use rkhv.Vm.Vmcs.HostFields.{
  host_encoding, vmcs_host_es, vmcs_host_cs, vmcs_host_ss, vmcs_host_ds, vmcs_host_fs, vmcs_host_gs,
  vmcs_host_tr, vmcs_host_cr0, vmcs_host_cr3, vmcs_host_cr4, vmcs_host_fs_base, vmcs_host_gs_base,
  vmcs_host_tr_base, vmcs_host_gdtr_base, vmcs_host_idtr_base, vmcs_host_ia32_sysenter_esp,
  vmcs_host_ia32_sysenter_eip, vmcs_host_rsp, vmcs_host_rip, vmcs_host_ia32_efer,
}
use rkhv.Vm.Vmcs.GuestFields.{
  guest_encoding, vmcs_guest_es, vmcs_guest_cs, vmcs_guest_ss, vmcs_guest_ds, vmcs_guest_fs,
  vmcs_guest_gs, vmcs_guest_ldtr, vmcs_guest_tr, vmcs_guest_vmcs_link_pointer,
  vmcs_guest_ia32_debugctl, vmcs_guest_ia32_efer, vmcs_guest_es_limit, vmcs_guest_cs_limit,
  vmcs_guest_ss_limit, vmcs_guest_ds_limit, vmcs_guest_fs_limit, vmcs_guest_gs_limit,
  vmcs_guest_ldtr_limit, vmcs_guest_tr_limit, vmcs_guest_gdtr_limit, vmcs_guest_idtr_limit,
  vmcs_guest_es_access_rights, vmcs_guest_cs_access_rights, vmcs_guest_ss_access_rights,
  vmcs_guest_ds_access_rights, vmcs_guest_fs_access_rights, vmcs_guest_gs_access_rights,
  vmcs_guest_ldtr_access_rights, vmcs_guest_tr_access_rights, vmcs_guest_interruptibility_state,
  vmcs_guest_activity_state, vmcs_guest_ia32_sysenter_cs, vmcs_guest_cr0, vmcs_guest_cr3,
  vmcs_guest_cr4, vmcs_guest_es_base, vmcs_guest_cs_base, vmcs_guest_ss_base, vmcs_guest_ds_base,
  vmcs_guest_fs_base, vmcs_guest_gs_base, vmcs_guest_ldtr_base, vmcs_guest_tr_base,
  vmcs_guest_gdtr_base, vmcs_guest_idtr_base, vmcs_guest_dr7, vmcs_guest_rsp, vmcs_guest_rip,
  vmcs_guest_rflags, vmcs_guest_pending_debug_exceptions, vmcs_guest_ia32_sysenter_esp,
  vmcs_guest_ia32_sysenter_eip,
}

-- field_encoding, value, allowed_msr
pub data DefaultField : Type 0 where
  row : ℕ → ℕ → ℕ → DefaultField

unfoldable pub control_rows : Cpu → VmcsConfig → ℕ → List DefaultField
unfolding control_encoding
control_rows cpu config msr_bitmaps_page =
    row (control_encoding vmcs_cf_primary_processor_based_vm_execution_controls)
      (bit_or
        (bit_or (bit_or vmcs_cf_ppbvmec_hlt_exiting vmcs_cf_ppbvmec_unconditional_io_exiting)
          vmcs_cf_ppbvmec_use_msr_bitmaps)
        vmcs_cf_ppbvmec_activate_secondary_controls)
      ia32_vmx_procbased_ctls
    ∷ row (control_encoding vmcs_cf_secondary_processor_based_vm_execution_controls)
        (bit_or
          (bit_or (bit_or vmcs_cf_spbvmec_enable_ept vmcs_cf_spbvmec_unrestricted_guest)
            vmcs_cf_spbvmec_enable_invpcid)
          vmcs_cf_spbvmec_enable_xsaves_xrstors)
        ia32_vmx_procbased_ctls2
    ∷ row (control_encoding vmcs_cf_address_of_msr_bitmaps) msr_bitmaps_page 0
    ∷ row (control_encoding vmcs_cf_xss_exiting_bitmap) 0 0
    ∷ row (control_encoding vmcs_cf_ept_pointer)
        (bit_or
          (bit_or (bit_and config.eptp vmcs_cf_eptp_physical_address_pml4)
            vmcs_cf_eptp_page_walk_length_4)
          vmcs_cf_eptp_write_back)
        0
    ∷ row (control_encoding vmcs_cf_pin_based_vm_execution_controls) 0 ia32_vmx_pinbased_ctls
    ∷ row (control_encoding vmcs_cf_primary_vm_exit_controls)
        (bit_or (bit_or vmcs_cf_vmex_host_address_space_size vmcs_cf_vmex_save_ia32_efer)
          vmcs_cf_vmex_load_ia32_efer)
        ia32_vmx_exit_ctls
    ∷ row (control_encoding vmcs_cf_vm_exit_msr_store_count) 0 0
    ∷ row (control_encoding vmcs_cf_vm_exit_msr_load_count) 0 0
    ∷ row (control_encoding vmcs_cf_exception_bitmap) 0 0
    ∷ row (control_encoding vmcs_cf_page_fault_error_code_mask) 0 0
    ∷ row (control_encoding vmcs_cf_page_fault_error_code_match) 0 0
    ∷ row (control_encoding vmcs_cf_vm_entry_controls)
        (bit_or vmcs_cf_vmen_ia_32e_mode_guest vmcs_cf_vmen_load_ia32_efer) ia32_vmx_entry_ctls
    ∷ row (control_encoding vmcs_cf_vm_entry_msr_load_count) 0 0
    ∷ row (control_encoding vmcs_cf_vm_entry_interruption_information_field) 0 0
    ∷ row (control_encoding vmcs_cf_cr3_target_count) 0 0
    ∷ row (control_encoding vmcs_cf_cr0_guest_host_mask) 0 0
    ∷ row (control_encoding vmcs_cf_cr0_read_shadow) 0 0
    ∷ row (control_encoding vmcs_cf_cr4_guest_host_mask) cr4_vmxe 0
    ∷ row (control_encoding vmcs_cf_cr4_read_shadow) cr4_vmxe 0
    ∷ []

unfoldable pub host_rows : Cpu → List DefaultField
unfolding host_encoding
host_rows cpu =
    row (host_encoding vmcs_host_es) rkhv_ds 0
    ∷ row (host_encoding vmcs_host_cs) rkhv_cs 0
    ∷ row (host_encoding vmcs_host_ss) rkhv_ds 0
    ∷ row (host_encoding vmcs_host_ds) rkhv_ds 0
    ∷ row (host_encoding vmcs_host_fs) rkhv_ds 0
    ∷ row (host_encoding vmcs_host_gs) rkhv_ds 0
    ∷ row (host_encoding vmcs_host_tr) rkhv_ds 0
    ∷ row (host_encoding vmcs_host_fs_base) 0 0
    ∷ row (host_encoding vmcs_host_gs_base) 0 0
    ∷ row (host_encoding vmcs_host_tr_base) 0 0
    ∷ row (host_encoding vmcs_host_cr0) cpu.cr0 0
    ∷ row (host_encoding vmcs_host_cr3) cpu.cr3 0
    ∷ row (host_encoding vmcs_host_cr4) cpu.cr4 0
    ∷ row (host_encoding vmcs_host_gdtr_base) cpu.gdtr_offset 0
    ∷ row (host_encoding vmcs_host_idtr_base) cpu.idtr_offset 0
    ∷ row (host_encoding vmcs_host_rsp) rkhv_stack_top 0
    ∷ row (host_encoding vmcs_host_rip) cpu.vmx_vmexit 0
    ∷ row (host_encoding vmcs_host_ia32_sysenter_esp) 0 0
    ∷ row (host_encoding vmcs_host_ia32_sysenter_eip) 0 0
    ∷ row (host_encoding vmcs_host_ia32_efer) (cpu.rdmsr ia32_efer) 0
    ∷ []

unfoldable pub guest_rows : Cpu → GuestState → List DefaultField
unfolding guest_encoding vmx_read_segment_access_right_from_gdt
guest_rows cpu guest =
    let guest_ds_access_right =
      vmx_read_segment_access_right_from_gdt guest.ds (cpu.gdt guest.gdtr_offset) in
    let guest_cs_access_right =
      vmx_read_segment_access_right_from_gdt guest.cs (cpu.gdt guest.gdtr_offset) in
    row (guest_encoding vmcs_guest_es) guest.ds 0
    ∷ row (guest_encoding vmcs_guest_cs) guest.cs 0
    ∷ row (guest_encoding vmcs_guest_ss) guest.ds 0
    ∷ row (guest_encoding vmcs_guest_ds) guest.ds 0
    ∷ row (guest_encoding vmcs_guest_fs) guest.ds 0
    ∷ row (guest_encoding vmcs_guest_gs) guest.ds 0
    ∷ row (guest_encoding vmcs_guest_tr) 0 0
    ∷ row (guest_encoding vmcs_guest_ldtr) 0 0
    ∷ row (guest_encoding vmcs_guest_fs_base) 0 0
    ∷ row (guest_encoding vmcs_guest_gs_base) 0 0
    ∷ row (guest_encoding vmcs_guest_tr_base) 0 0
    ∷ row (guest_encoding vmcs_guest_ldtr_base) 0 0
    ∷ row (guest_encoding vmcs_guest_cs_base) 0 0
    ∷ row (guest_encoding vmcs_guest_ss_base) 0 0
    ∷ row (guest_encoding vmcs_guest_ds_base) 0 0
    ∷ row (guest_encoding vmcs_guest_es_base) 0 0
    ∷ row (guest_encoding vmcs_guest_fs_limit) 0xffffffff 0
    ∷ row (guest_encoding vmcs_guest_gs_limit) 0xffffffff 0
    ∷ row (guest_encoding vmcs_guest_cs_limit) 0xffffffff 0
    ∷ row (guest_encoding vmcs_guest_ss_limit) 0xffffffff 0
    ∷ row (guest_encoding vmcs_guest_ds_limit) 0xffffffff 0
    ∷ row (guest_encoding vmcs_guest_es_limit) 0xffffffff 0
    ∷ row (guest_encoding vmcs_guest_ldtr_limit) 0 0
    ∷ row (guest_encoding vmcs_guest_tr_limit) 0 0
    ∷ row (guest_encoding vmcs_guest_es_access_rights) guest_ds_access_right 0
    ∷ row (guest_encoding vmcs_guest_cs_access_rights) guest_cs_access_right 0
    ∷ row (guest_encoding vmcs_guest_ss_access_rights) guest_ds_access_right 0
    ∷ row (guest_encoding vmcs_guest_ds_access_rights) guest_ds_access_right 0
    ∷ row (guest_encoding vmcs_guest_fs_access_rights) guest_ds_access_right 0
    ∷ row (guest_encoding vmcs_guest_gs_access_rights) guest_ds_access_right 0
    ∷ row (guest_encoding vmcs_guest_ldtr_access_rights) vmcs_unusable_segment 0
    ∷ row (guest_encoding vmcs_guest_tr_access_rights)
        (bit_or (bit_or gdt_segment_descriptor_access_present gdt_segment_descriptor_access_system)
          gdt_segment_descriptor_system_type_tss_busy)
        0
    ∷ row (guest_encoding vmcs_guest_cr0) guest.cr0 0
    ∷ row (guest_encoding vmcs_guest_cr3) guest.cr3 0
    ∷ row (guest_encoding vmcs_guest_cr4) guest.cr4 0
    ∷ row (guest_encoding vmcs_guest_gdtr_base) guest.gdtr_offset 0
    ∷ row (guest_encoding vmcs_guest_gdtr_limit) guest.gdtr_size 0
    ∷ row (guest_encoding vmcs_guest_idtr_base) guest.idtr_offset 0
    ∷ row (guest_encoding vmcs_guest_idtr_limit) guest.idtr_size 0
    ∷ row (guest_encoding vmcs_guest_rsp) guest.rsp 0
    ∷ row (guest_encoding vmcs_guest_rip) guest.rip 0
    ∷ row (guest_encoding vmcs_guest_rflags) rflags_reserved 0
    ∷ row (guest_encoding vmcs_guest_ia32_sysenter_esp) 0 0
    ∷ row (guest_encoding vmcs_guest_ia32_sysenter_eip) 0 0
    ∷ row (guest_encoding vmcs_guest_ia32_sysenter_cs) 0 0
    ∷ row (guest_encoding vmcs_guest_ia32_efer) guest.ia32_efer 0
    ∷ row (guest_encoding vmcs_guest_dr7) 0 0
    ∷ row (guest_encoding vmcs_guest_ia32_debugctl) 0 0
    ∷ row (guest_encoding vmcs_guest_activity_state) 0 0
    ∷ row (guest_encoding vmcs_guest_interruptibility_state) 0 0
    ∷ row (guest_encoding vmcs_guest_pending_debug_exceptions) 0 0
    ∷ row (guest_encoding vmcs_guest_vmcs_link_pointer) vmcs_invalid_link_pointer 0
    ∷ []

unfoldable pub default_vmcs_fields : Cpu → VmcsConfig → ℕ → List DefaultField
unfolding control_rows host_rows guest_rows
default_vmcs_fields cpu config msr_bitmaps_page =
    control_rows cpu config msr_bitmaps_page ++ (host_rows cpu ++ guest_rows cpu config.guest_state)

-- ===== src/Vm/Vmcs/ControlFields.antt =====
-- The control fields of hv/src/vmm/vmx_vmcs.h, each with its encoding.
use rkhv.Base.{ℕ}

pub data ControlField : Type 0 where
  vmcs_cf_vpid vmcs_cf_posted_interrupt_notification_vector vmcs_cf_eptp_index
        vmcs_cf_hlat_prefix_size vmcs_cf_last_pid_pointer_index vmcs_cf_address_of_msr_bitmaps
        vmcs_cf_vm_exit_msr_store_address vmcs_cf_vm_exit_msr_load_address
        vmcs_cf_vm_entry_msr_load_address vmcs_cf_executive_vmcs_pointer vmcs_cf_pml_address
        vmcs_cf_tsc_offset vmcs_cf_virtual_apic_address vmcs_cf_apic_access_address
        vmcs_cf_posted_interrupt_descriptor_address vmcs_cf_vm_function_controls vmcs_cf_ept_pointer
        vmcs_cf_eoi_exit_bitmap_0 vmcs_cf_eoi_exit_bitmap_1 vmcs_cf_eoi_exit_bitmap_2
        vmcs_cf_eoi_exit_bitmap_3 vmcs_cf_eptp_list_address vmcs_cf_vmread_bitmap_address
        vmcs_cf_vmwrite_bitmap_address vmcs_cf_virtualization_exception_information_address
        vmcs_cf_xss_exiting_bitmap vmcs_cf_encls_exiting_bitmap
        vmcs_cf_sub_page_permission_table_pointer vmcs_cf_tsc_multiplier
        vmcs_cf_tertiary_processor_based_vm_execution_controls vmcs_cf_enclv_exiting_bitmap
        vmcs_cf_low_pasid_directory_address vmcs_cf_high_pasid_directory_address
        vmcs_cf_shared_ept_pointer vmcs_cf_pconfig_exiting_bitmap
        vmcs_cf_hypervisor_managed_linear_address_translation_pointer
        vmcs_cf_pid_pointer_table_address vmcs_cf_secondary_vm_exit_controls
        vmcs_cf_pin_based_vm_execution_controls
        vmcs_cf_primary_processor_based_vm_execution_controls vmcs_cf_exception_bitmap
        vmcs_cf_page_fault_error_code_mask vmcs_cf_page_fault_error_code_match
        vmcs_cf_cr3_target_count vmcs_cf_primary_vm_exit_controls vmcs_cf_vm_exit_msr_store_count
        vmcs_cf_vm_exit_msr_load_count vmcs_cf_vm_entry_controls vmcs_cf_vm_entry_msr_load_count
        vmcs_cf_vm_entry_interruption_information_field vmcs_cf_vm_entry_exception_error_code
        vmcs_cf_vm_entry_instruction_length vmcs_cf_tpr_threshold
        vmcs_cf_secondary_processor_based_vm_execution_controls vmcs_cf_ple_gap vmcs_cf_ple_window
        vmcs_cf_cr0_guest_host_mask vmcs_cf_cr4_guest_host_mask vmcs_cf_cr0_read_shadow
        vmcs_cf_cr4_read_shadow vmcs_cf_cr3_target_value_0 vmcs_cf_cr3_target_value_1
        vmcs_cf_cr3_target_value_2 vmcs_cf_cr3_target_value_3 :
      ControlField

unfoldable pub control_encoding : ControlField → ℕ
control_encoding vmcs_cf_vpid = 0x00000000
control_encoding vmcs_cf_posted_interrupt_notification_vector = 0x00000002
control_encoding vmcs_cf_eptp_index = 0x00000004
control_encoding vmcs_cf_hlat_prefix_size = 0x00000006
control_encoding vmcs_cf_last_pid_pointer_index = 0x00000008
control_encoding vmcs_cf_address_of_msr_bitmaps = 0x00002004
control_encoding vmcs_cf_vm_exit_msr_store_address = 0x00002006
control_encoding vmcs_cf_vm_exit_msr_load_address = 0x00002008
control_encoding vmcs_cf_vm_entry_msr_load_address = 0x0000200A
control_encoding vmcs_cf_executive_vmcs_pointer = 0x0000200C
control_encoding vmcs_cf_pml_address = 0x0000200E
control_encoding vmcs_cf_tsc_offset = 0x00002010
control_encoding vmcs_cf_virtual_apic_address = 0x00002012
control_encoding vmcs_cf_apic_access_address = 0x00002014
control_encoding vmcs_cf_posted_interrupt_descriptor_address = 0x00002016
control_encoding vmcs_cf_vm_function_controls = 0x00002018
control_encoding vmcs_cf_ept_pointer = 0x0000201A
control_encoding vmcs_cf_eoi_exit_bitmap_0 = 0x0000201C
control_encoding vmcs_cf_eoi_exit_bitmap_1 = 0x0000201E
control_encoding vmcs_cf_eoi_exit_bitmap_2 = 0x00002020
control_encoding vmcs_cf_eoi_exit_bitmap_3 = 0x00002022
control_encoding vmcs_cf_eptp_list_address = 0x00002024
control_encoding vmcs_cf_vmread_bitmap_address = 0x00002026
control_encoding vmcs_cf_vmwrite_bitmap_address = 0x00002028
control_encoding vmcs_cf_virtualization_exception_information_address = 0x0000202A
control_encoding vmcs_cf_xss_exiting_bitmap = 0x0000202C
control_encoding vmcs_cf_encls_exiting_bitmap = 0x0000202E
control_encoding vmcs_cf_sub_page_permission_table_pointer = 0x00002030
control_encoding vmcs_cf_tsc_multiplier = 0x00002032
control_encoding vmcs_cf_tertiary_processor_based_vm_execution_controls = 0x00002034
control_encoding vmcs_cf_enclv_exiting_bitmap = 0x00002036
control_encoding vmcs_cf_low_pasid_directory_address = 0x00002038
control_encoding vmcs_cf_high_pasid_directory_address = 0x0000203A
control_encoding vmcs_cf_shared_ept_pointer = 0x0000203C
control_encoding vmcs_cf_pconfig_exiting_bitmap = 0x0000203E
control_encoding vmcs_cf_hypervisor_managed_linear_address_translation_pointer = 0x00002040
control_encoding vmcs_cf_pid_pointer_table_address = 0x00002042
control_encoding vmcs_cf_secondary_vm_exit_controls = 0x00002044
control_encoding vmcs_cf_pin_based_vm_execution_controls = 0x00004000
control_encoding vmcs_cf_primary_processor_based_vm_execution_controls = 0x00004002
control_encoding vmcs_cf_exception_bitmap = 0x00004004
control_encoding vmcs_cf_page_fault_error_code_mask = 0x00004006
control_encoding vmcs_cf_page_fault_error_code_match = 0x00004008
control_encoding vmcs_cf_cr3_target_count = 0x0000400A
control_encoding vmcs_cf_primary_vm_exit_controls = 0x0000400C
control_encoding vmcs_cf_vm_exit_msr_store_count = 0x0000400E
control_encoding vmcs_cf_vm_exit_msr_load_count = 0x00004010
control_encoding vmcs_cf_vm_entry_controls = 0x00004012
control_encoding vmcs_cf_vm_entry_msr_load_count = 0x00004014
control_encoding vmcs_cf_vm_entry_interruption_information_field = 0x00004016
control_encoding vmcs_cf_vm_entry_exception_error_code = 0x00004018
control_encoding vmcs_cf_vm_entry_instruction_length = 0x0000401A
control_encoding vmcs_cf_tpr_threshold = 0x0000401C
control_encoding vmcs_cf_secondary_processor_based_vm_execution_controls = 0x0000401E
control_encoding vmcs_cf_ple_gap = 0x00004020
control_encoding vmcs_cf_ple_window = 0x00004022
control_encoding vmcs_cf_cr0_guest_host_mask = 0x00006000
control_encoding vmcs_cf_cr4_guest_host_mask = 0x00006002
control_encoding vmcs_cf_cr0_read_shadow = 0x00006004
control_encoding vmcs_cf_cr4_read_shadow = 0x00006006
control_encoding vmcs_cf_cr3_target_value_0 = 0x00006008
control_encoding vmcs_cf_cr3_target_value_1 = 0x0000600A
control_encoding vmcs_cf_cr3_target_value_2 = 0x0000600C
control_encoding vmcs_cf_cr3_target_value_3 = 0x0000600E

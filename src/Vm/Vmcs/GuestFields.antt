-- ===== src/Vm/Vmcs/GuestFields.antt =====
-- The guest-state fields of hv/src/vmm/vmx_vmcs.h, each with its encoding.
use rkhv.Base.{ℕ}

pub data GuestField : Type 0 where
  vmcs_guest_es vmcs_guest_cs vmcs_guest_ss vmcs_guest_ds vmcs_guest_fs vmcs_guest_gs
        vmcs_guest_ldtr vmcs_guest_tr vmcs_guest_interrupt_status vmcs_guest_pml_index
        vmcs_guest_uinv vmcs_guest_vmcs_link_pointer vmcs_guest_ia32_debugctl vmcs_guest_ia32_efer
        vmcs_guest_es_limit vmcs_guest_cs_limit vmcs_guest_ss_limit vmcs_guest_ds_limit
        vmcs_guest_fs_limit vmcs_guest_gs_limit vmcs_guest_ldtr_limit vmcs_guest_tr_limit
        vmcs_guest_gdtr_limit vmcs_guest_idtr_limit vmcs_guest_es_access_rights
        vmcs_guest_cs_access_rights vmcs_guest_ss_access_rights vmcs_guest_ds_access_rights
        vmcs_guest_fs_access_rights vmcs_guest_gs_access_rights vmcs_guest_ldtr_access_rights
        vmcs_guest_tr_access_rights vmcs_guest_interruptibility_state vmcs_guest_activity_state
        vmcs_guest_smbase vmcs_guest_ia32_sysenter_cs vmcs_guest_vmx_preemption_timer_value
        vmcs_guest_cr0 vmcs_guest_cr3 vmcs_guest_cr4 vmcs_guest_es_base vmcs_guest_cs_base
        vmcs_guest_ss_base vmcs_guest_ds_base vmcs_guest_fs_base vmcs_guest_gs_base
        vmcs_guest_ldtr_base vmcs_guest_tr_base vmcs_guest_gdtr_base vmcs_guest_idtr_base
        vmcs_guest_dr7 vmcs_guest_rsp vmcs_guest_rip vmcs_guest_rflags
        vmcs_guest_pending_debug_exceptions vmcs_guest_ia32_sysenter_esp
        vmcs_guest_ia32_sysenter_eip vmcs_guest_ia32_s_cet vmcs_guest_ssp
        vmcs_guest_ia32_interrupt_ssp_table_addr :
      GuestField

unfoldable pub guest_encoding : GuestField → ℕ
guest_encoding vmcs_guest_es = 0x00000800
guest_encoding vmcs_guest_cs = 0x00000802
guest_encoding vmcs_guest_ss = 0x00000804
guest_encoding vmcs_guest_ds = 0x00000806
guest_encoding vmcs_guest_fs = 0x00000808
guest_encoding vmcs_guest_gs = 0x0000080A
guest_encoding vmcs_guest_ldtr = 0x0000080C
guest_encoding vmcs_guest_tr = 0x0000080E
guest_encoding vmcs_guest_interrupt_status = 0x00000810
guest_encoding vmcs_guest_pml_index = 0x00000812
guest_encoding vmcs_guest_uinv = 0x00000814
guest_encoding vmcs_guest_vmcs_link_pointer = 0x00002800
guest_encoding vmcs_guest_ia32_debugctl = 0x00002802
guest_encoding vmcs_guest_ia32_efer = 0x00002806
guest_encoding vmcs_guest_es_limit = 0x00004800
guest_encoding vmcs_guest_cs_limit = 0x00004802
guest_encoding vmcs_guest_ss_limit = 0x00004804
guest_encoding vmcs_guest_ds_limit = 0x00004806
guest_encoding vmcs_guest_fs_limit = 0x00004808
guest_encoding vmcs_guest_gs_limit = 0x0000480A
guest_encoding vmcs_guest_ldtr_limit = 0x0000480C
guest_encoding vmcs_guest_tr_limit = 0x0000480E
guest_encoding vmcs_guest_gdtr_limit = 0x00004810
guest_encoding vmcs_guest_idtr_limit = 0x00004812
guest_encoding vmcs_guest_es_access_rights = 0x00004814
guest_encoding vmcs_guest_cs_access_rights = 0x00004816
guest_encoding vmcs_guest_ss_access_rights = 0x00004818
guest_encoding vmcs_guest_ds_access_rights = 0x0000481A
guest_encoding vmcs_guest_fs_access_rights = 0x0000481C
guest_encoding vmcs_guest_gs_access_rights = 0x0000481E
guest_encoding vmcs_guest_ldtr_access_rights = 0x00004820
guest_encoding vmcs_guest_tr_access_rights = 0x00004822
guest_encoding vmcs_guest_interruptibility_state = 0x00004824
guest_encoding vmcs_guest_activity_state = 0x00004826
guest_encoding vmcs_guest_smbase = 0x00004828
guest_encoding vmcs_guest_ia32_sysenter_cs = 0x0000482A
guest_encoding vmcs_guest_vmx_preemption_timer_value = 0x0000482E
guest_encoding vmcs_guest_cr0 = 0x00006800
guest_encoding vmcs_guest_cr3 = 0x00006802
guest_encoding vmcs_guest_cr4 = 0x00006804
guest_encoding vmcs_guest_es_base = 0x00006806
guest_encoding vmcs_guest_cs_base = 0x00006808
guest_encoding vmcs_guest_ss_base = 0x0000680A
guest_encoding vmcs_guest_ds_base = 0x0000680C
guest_encoding vmcs_guest_fs_base = 0x0000680E
guest_encoding vmcs_guest_gs_base = 0x00006810
guest_encoding vmcs_guest_ldtr_base = 0x00006812
guest_encoding vmcs_guest_tr_base = 0x00006814
guest_encoding vmcs_guest_gdtr_base = 0x00006816
guest_encoding vmcs_guest_idtr_base = 0x00006818
guest_encoding vmcs_guest_dr7 = 0x0000681A
guest_encoding vmcs_guest_rsp = 0x0000681C
guest_encoding vmcs_guest_rip = 0x0000681E
guest_encoding vmcs_guest_rflags = 0x00006820
guest_encoding vmcs_guest_pending_debug_exceptions = 0x00006822
guest_encoding vmcs_guest_ia32_sysenter_esp = 0x00006824
guest_encoding vmcs_guest_ia32_sysenter_eip = 0x00006826
guest_encoding vmcs_guest_ia32_s_cet = 0x00006828
guest_encoding vmcs_guest_ssp = 0x0000682A
guest_encoding vmcs_guest_ia32_interrupt_ssp_table_addr = 0x0000682C

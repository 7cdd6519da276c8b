-- ===== src/Vm/Vmcs/HostFields.antt =====
-- The host-state fields of hv/src/vmm/vmx_vmcs.h, each with its encoding.
use rkhv.Base.{ℕ}

pub data HostField : Type 0 where
  vmcs_host_es vmcs_host_cs vmcs_host_ss vmcs_host_ds vmcs_host_fs vmcs_host_gs vmcs_host_tr
        vmcs_host_cr0 vmcs_host_cr3 vmcs_host_cr4 vmcs_host_fs_base vmcs_host_gs_base
        vmcs_host_tr_base vmcs_host_gdtr_base vmcs_host_idtr_base vmcs_host_ia32_sysenter_esp
        vmcs_host_ia32_sysenter_eip vmcs_host_rsp vmcs_host_rip vmcs_host_ia32_s_cet vmcs_host_ssp1
        vmcs_host_ia32_interrupt_ssp_table_addr1 vmcs_host_ia32_pat vmcs_host_ia32_efer
        vmcs_host_ia32_perf_global_ctrl vmcs_host_ia32_pkrs :
      HostField

unfoldable pub host_encoding : HostField → ℕ
host_encoding vmcs_host_es = 0x00000C00
host_encoding vmcs_host_cs = 0x00000C02
host_encoding vmcs_host_ss = 0x00000C04
host_encoding vmcs_host_ds = 0x00000C06
host_encoding vmcs_host_fs = 0x00000C08
host_encoding vmcs_host_gs = 0x00000C0A
host_encoding vmcs_host_tr = 0x00000C0C
host_encoding vmcs_host_cr0 = 0x00006C00
host_encoding vmcs_host_cr3 = 0x00006C02
host_encoding vmcs_host_cr4 = 0x00006C04
host_encoding vmcs_host_fs_base = 0x00006C06
host_encoding vmcs_host_gs_base = 0x00006C08
host_encoding vmcs_host_tr_base = 0x00006C0A
host_encoding vmcs_host_gdtr_base = 0x00006C0C
host_encoding vmcs_host_idtr_base = 0x00006C0E
host_encoding vmcs_host_ia32_sysenter_esp = 0x00006C10
host_encoding vmcs_host_ia32_sysenter_eip = 0x00006C12
host_encoding vmcs_host_rsp = 0x00006C14
host_encoding vmcs_host_rip = 0x00006C16
host_encoding vmcs_host_ia32_s_cet = 0x00006C18
host_encoding vmcs_host_ssp1 = 0x00006C1A
host_encoding vmcs_host_ia32_interrupt_ssp_table_addr1 = 0x00006C1C
host_encoding vmcs_host_ia32_pat = 0x00002C00
host_encoding vmcs_host_ia32_efer = 0x00002C02
host_encoding vmcs_host_ia32_perf_global_ctrl = 0x00002C04
host_encoding vmcs_host_ia32_pkrs = 0x00002C06

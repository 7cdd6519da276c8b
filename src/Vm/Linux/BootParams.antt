-- ===== src/Vm/Linux/BootParams.antt =====
-- linux_boot_params_t of hv/src/vmm/guest_linux_loader_defs.h, with the offsets of its fields. The
-- padding fields have their names without the underscore.
use rkhv.Base.{ℕ, ◌-◌, ◌*◌, List, [], ◌∷◌, ◌≡◌, refl}
use rkhv.Memory.{page_size}
use rkhv.Vm.Linux.SetupHeader.{offset_of, sizeof, sizeof_setup_header, sizeof_e820_entry}

pub data BootField : Type 0 where
  screen_info apm_bios_info pad2 tboot_addr ist_info acpi_rsdp_addr pad3 hd0_info hd1_info
        sys_desc_table olpc_ofw_header ext_ramdisk_image ext_ramdisk_size ext_cmd_line_ptr pad4
        cc_blob_address edid_info efi_info alt_mem_k scratch e820_entries eddbuf_entries
        edd_mbr_sig_buf_entries kbd_status secure_boot pad5 sentinel pad6 hdr pad7
        edd_mbr_sig_buffer e820_table pad8 eddbuf pad9 :
      BootField

abbrev pub boot_sizes : List ℕ
unfolding sizeof
boot_sizes =
    0x40
    ∷ 0x14
    ∷ 4
    ∷ 8
    ∷ 0x10
    ∷ 8
    ∷ 8
    ∷ 16
    ∷ 16
    ∷ 0x10
    ∷ 0x10
    ∷ 4
    ∷ 4
    ∷ 4
    ∷ 112
    ∷ 4
    ∷ 0x80
    ∷ 0x20
    ∷ 4
    ∷ 4
    ∷ 1
    ∷ 1
    ∷ 1
    ∷ 1
    ∷ 1
    ∷ 2
    ∷ 1
    ∷ 1
    ∷ sizeof_setup_header
    ∷ (0x290 - 0x1f1 - sizeof_setup_header)
    ∷ (16 * 4)
    ∷ (128 * sizeof_e820_entry)
    ∷ 48
    ∷ (6 * 0x52)
    ∷ 276
    ∷ []

unfoldable pub boot_index : BootField → ℕ
boot_index screen_info = 0
boot_index apm_bios_info = 1
boot_index pad2 = 2
boot_index tboot_addr = 3
boot_index ist_info = 4
boot_index acpi_rsdp_addr = 5
boot_index pad3 = 6
boot_index hd0_info = 7
boot_index hd1_info = 8
boot_index sys_desc_table = 9
boot_index olpc_ofw_header = 10
boot_index ext_ramdisk_image = 11
boot_index ext_ramdisk_size = 12
boot_index ext_cmd_line_ptr = 13
boot_index pad4 = 14
boot_index cc_blob_address = 15
boot_index edid_info = 16
boot_index efi_info = 17
boot_index alt_mem_k = 18
boot_index scratch = 19
boot_index e820_entries = 20
boot_index eddbuf_entries = 21
boot_index edd_mbr_sig_buf_entries = 22
boot_index kbd_status = 23
boot_index secure_boot = 24
boot_index pad5 = 25
boot_index sentinel = 26
boot_index pad6 = 27
boot_index hdr = 28
boot_index pad7 = 29
boot_index edd_mbr_sig_buffer = 30
boot_index e820_table = 31
boot_index pad8 = 32
boot_index eddbuf = 33
boot_index pad9 = 34

-- offsetof(linux_boot_params_t, field)
unfoldable pub boot_offset : BootField → ℕ
unfolding offset_of boot_index
boot_offset f = offset_of (boot_index f) boot_sizes

-- static_assert(sizeof(linux_boot_params_t) == PAGE_SIZE)
pub sizeof-boot_sizes : sizeof boot_sizes ≡ page_size
unfolding sizeof
sizeof-boot_sizes = refl

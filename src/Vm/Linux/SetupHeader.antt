-- ===== src/Vm/Linux/SetupHeader.antt =====
-- The packed structures of hv/src/vmm/guest_linux_loader_defs.h: the order and the sizes of their
-- fields. The padding fields have their names without the underscore.
use rkhv.Base.{ℕ, zero, suc, ◌+◌, List, [], ◌∷◌}

-- offsetof the field with a number, of a packed structure.
unfoldable pub offset_of : ℕ → List ℕ → ℕ
offset_of zero sizes = 0
offset_of (suc i) [] = 0
offset_of (suc i) (size ∷ sizes) = size + offset_of i sizes

unfoldable pub sizeof : List ℕ → ℕ
sizeof [] = 0
sizeof (size ∷ sizes) = size + sizeof sizes

-- linux_setup_header_t
pub data HeaderField : Type 0 where
  setup_sects root_flags syssize ram_size vid_mode root_dev boot_flag jump header version
        realmode_swtch start_sys_seg kernel_version type_of_loader loadflags setup_move_size
        code32_start ramdisk_image ramdisk_size bootsect_kludge heap_end_ptr ext_loader_ver
        ext_loader_type cmd_line_ptr initrd_addr_max kernel_alignment relocatable_kernel
        min_alignment xloadflags cmdline_size hardware_subarch hardware_subarch_data payload_offset
        payload_length setup_data pref_address init_size handover_offset kernel_info_offset :
      HeaderField

abbrev pub header_sizes : List ℕ
header_sizes =
    1 ∷ 2 ∷ 4 ∷ 2 ∷ 2 ∷ 2 ∷ 2 ∷ 2 ∷ 4 ∷ 2 ∷ 4 ∷ 2 ∷ 2 ∷ 1 ∷ 1 ∷ 2 ∷ 4 ∷ 4 ∷ 4 ∷ 4 ∷ 2 ∷ 1 ∷ 1 ∷ 4
    ∷ 4 ∷ 4 ∷ 1 ∷ 1 ∷ 2 ∷ 4 ∷ 4 ∷ 8 ∷ 4 ∷ 4 ∷ 8 ∷ 8 ∷ 4 ∷ 4 ∷ 4 ∷ []

unfoldable pub header_index : HeaderField → ℕ
header_index setup_sects = 0
header_index root_flags = 1
header_index syssize = 2
header_index ram_size = 3
header_index vid_mode = 4
header_index root_dev = 5
header_index boot_flag = 6
header_index jump = 7
header_index header = 8
header_index version = 9
header_index realmode_swtch = 10
header_index start_sys_seg = 11
header_index kernel_version = 12
header_index type_of_loader = 13
header_index loadflags = 14
header_index setup_move_size = 15
header_index code32_start = 16
header_index ramdisk_image = 17
header_index ramdisk_size = 18
header_index bootsect_kludge = 19
header_index heap_end_ptr = 20
header_index ext_loader_ver = 21
header_index ext_loader_type = 22
header_index cmd_line_ptr = 23
header_index initrd_addr_max = 24
header_index kernel_alignment = 25
header_index relocatable_kernel = 26
header_index min_alignment = 27
header_index xloadflags = 28
header_index cmdline_size = 29
header_index hardware_subarch = 30
header_index hardware_subarch_data = 31
header_index payload_offset = 32
header_index payload_length = 33
header_index setup_data = 34
header_index pref_address = 35
header_index init_size = 36
header_index handover_offset = 37
header_index kernel_info_offset = 38

-- offsetof(linux_setup_header_t, field)
unfoldable pub header_offset : HeaderField → ℕ
unfolding offset_of header_index
header_offset f = offset_of (header_index f) header_sizes

abbrev pub sizeof_setup_header : ℕ
unfolding sizeof
sizeof_setup_header = sizeof header_sizes

-- linux_boot_e820_entry_t: addr, size and type
abbrev pub e820_entry_sizes : List ℕ
e820_entry_sizes = 8 ∷ 8 ∷ 4 ∷ []

abbrev pub sizeof_e820_entry : ℕ
unfolding sizeof
sizeof_e820_entry = sizeof e820_entry_sizes

-- ===== src/Vm/Linux/ZeroPage.antt =====
-- The zeropage that vm_guest_linux_loader builds, hv/src/vmm/guest_linux_loader.c. It is one page
-- of bytes from the memset on; the image is the bytes from its address on.
pub mod Fields
use rkhv.Base.{
  ℕ, zero, suc, ◌+◌, ◌-◌, ◌*◌, ◌/◌, ◌%◌, ◌^◌, bit_and, List, [], ◌∷◌, ◌==◌, if◌then◌else◌,
}
use rkhv.Memory.{page_size}
use rkhv.Memory.Bytes.{in_range, word_of}
use rkhv.Vm.Msr.{Bytes}
use rkhv.Vm.Linux.SetupHeader.{
  HeaderField, jump, vid_mode, type_of_loader, loadflags, heap_end_ptr, ramdisk_image, ramdisk_size,
  cmd_line_ptr, setup_sects, header_sizes, header_index, header_offset, offset_of, sizeof,
  sizeof_e820_entry, e820_entry_sizes,
}
use rkhv.Vm.Linux.BootParams.{
  BootField, hdr, ext_ramdisk_image, ext_ramdisk_size, ext_cmd_line_ptr, e820_entries, e820_table,
  boot_sizes, boot_index, boot_offset,
}

-- A field of `size` bytes, the lowest first.
unfoldable pub read_field : Bytes → ℕ → ℕ → ℕ
unfolding word_of
read_field bytes offset size = word_of size (λ k. bytes (offset + k))

unfoldable pub write_field : ℕ → ℕ → ℕ → Bytes → Bytes
unfolding in_range
write_field offset size value bytes i =
    if in_range offset size i then value / 256 ^ (i - offset) % 256 else bytes i

unfoldable pub size_of : ℕ → List ℕ → ℕ
size_of i [] = 0
size_of zero (size ∷ sizes) = size
size_of (suc i) (size ∷ sizes) = size_of i sizes

-- hdr.field
unfoldable pub get_header : HeaderField → Bytes → ℕ
unfolding read_field boot_offset header_offset header_index size_of sizeof
get_header f bytes =
    read_field bytes (boot_offset hdr + header_offset f) (size_of (header_index f) header_sizes)

unfoldable pub set_header : HeaderField → ℕ → Bytes → Bytes
unfolding write_field boot_offset header_offset header_index size_of sizeof
set_header f value =
    write_field (boot_offset hdr + header_offset f) (size_of (header_index f) header_sizes) value

-- An integer field of linux_boot_params_t.
unfoldable pub get_boot : BootField → Bytes → ℕ
unfolding read_field boot_offset boot_index size_of sizeof
get_boot f bytes = read_field bytes (boot_offset f) (size_of (boot_index f) boot_sizes)

unfoldable pub set_boot : BootField → ℕ → Bytes → Bytes
unfolding write_field boot_offset boot_index size_of sizeof
set_boot f value = write_field (boot_offset f) (size_of (boot_index f) boot_sizes) value

-- e820_table[i], field 0 (addr), 1 (size) or 2 (type)
unfoldable pub get_e820 : ℕ → ℕ → Bytes → ℕ
unfolding read_field boot_offset offset_of size_of sizeof
get_e820 i field bytes =
    read_field bytes
      (boot_offset e820_table + i * sizeof_e820_entry + offset_of field e820_entry_sizes)
      (size_of field e820_entry_sizes)

unfoldable pub set_e820 : ℕ → ℕ → ℕ → Bytes → Bytes
unfolding write_field boot_offset offset_of size_of sizeof
set_e820 i field value =
    write_field (boot_offset e820_table + i * sizeof_e820_entry + offset_of field e820_entry_sizes)
      (size_of field e820_entry_sizes) value

-- image_setup_header_size
unfoldable pub image_setup_header_size : Bytes → ℕ
unfolding get_header header_offset
image_setup_header_size image = get_header jump image / 2 ^ 8 + header_offset jump + 2

-- The memset of the page and the memcpy of the setup header.
unfoldable pub copy_header : Bytes → Bytes
unfolding in_range boot_offset sizeof image_setup_header_size
copy_header image i =
    if in_range (boot_offset hdr) (image_setup_header_size image) i then image i else 0

unfoldable pub set_ramdisk : Bytes → Bytes
unfolding set_header set_boot
set_ramdisk z =
    set_boot ext_ramdisk_size 0
      (set_header ramdisk_size 0 (set_boot ext_ramdisk_image 0 (set_header ramdisk_image 0 z)))

unfoldable pub set_cmd_line : ℕ → Bytes → Bytes
unfolding set_header set_boot
set_cmd_line cmdline_page_guestpa z =
    set_boot ext_cmd_line_ptr (cmdline_page_guestpa / 2 ^ 32)
      (set_header cmd_line_ptr (cmdline_page_guestpa % 2 ^ 32) z)

unfoldable pub set_e820_table : ℕ → Bytes → Bytes
unfolding set_e820 set_boot
set_e820_table guest_physical_pages z = set_e820 1 2 1 (
    set_e820 1 1 ((guest_physical_pages + 2 ^ 64 - 0xa0) * page_size % 2 ^ 64) (
      set_e820 1 0 0xa0000
        (set_e820 0 2 1 (set_e820 0 1 (640 * 1024) (set_e820 0 0 0 (set_boot e820_entries 2 z))))))

unfoldable pub set_setup_sects : Bytes → Bytes
unfolding get_header set_header
set_setup_sects z = if get_header setup_sects z == 0 then set_header setup_sects 4 z else z

-- From the memset of the page to the e820 table.
unfoldable pub set_fields : Bytes → ℕ → ℕ → Bytes
unfolding copy_header set_ramdisk set_cmd_line set_e820_table get_header set_header
set_fields image guest_physical_pages cmdline_page_guestpa =
    let copied = copy_header image in
    let loader = set_header type_of_loader 0xFF (set_header vid_mode 0xFFFF copied) in
    let flags = set_header loadflags (bit_and (get_header loadflags loader) 0x1f) loader in
    let heap = set_header heap_end_ptr 0 flags in
    set_e820_table guest_physical_pages (set_cmd_line cmdline_page_guestpa (set_ramdisk heap))

unfoldable pub zeropage : Bytes → ℕ → ℕ → Bytes
unfolding set_fields set_setup_sects
zeropage image guest_physical_pages cmdline_page_guestpa =
    set_setup_sects (set_fields image guest_physical_pages cmdline_page_guestpa)

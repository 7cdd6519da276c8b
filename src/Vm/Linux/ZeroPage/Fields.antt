-- ===== src/Vm/Linux/ZeroPage/Fields.antt =====
-- What a kernel finds in the zeropage.
use rkhv.Base.{
  ℕ, ◌+◌, ◌*◌, ◌%◌, ◌^◌, ◌≤◌, ◌<◌, ◌≡◌, ◌≢◌, arith, refl, Bool-cases, inl, inr, ◌==◌, ◌⊎◌, zero,
  suc, if◌then◌else◌,
}
use rkhv.Base.Bits.{bit_and_low}
use rkhv.Memory.{page_size}
use rkhv.Memory.Bytes.{word_of}
use rkhv.Vm.Msr.{Bytes}
use rkhv.Vm.Linux.SetupHeader.{
  HeaderField, vid_mode, type_of_loader, loadflags, ramdisk_image, ramdisk_size, cmd_line_ptr,
  setup_sects, pref_address, kernel_alignment, header_offset, header_index, header_sizes, offset_of,
  sizeof, sizeof_setup_header,
}
use rkhv.Vm.Linux.BootParams.{hdr, ext_cmd_line_ptr, e820_entries, boot_offset}
use rkhv.Vm.Linux.ZeroPage.{
  get_header, set_header, get_boot, read_field, set_fields, size_of, get_e820, zeropage,
  image_setup_header_size, copy_header, set_setup_sects,
}

-- The default of setup_sects touches no other byte.
set_setup_sects_apart : (z : Bytes) (i : ℕ) → i ≢ 0x1f1 → set_setup_sects z i ≡ z i
unfolding set_header set_setup_sects
set_setup_sects_apart z i h = elim (Bool-cases (get_header setup_sects z == 0)) [
  | inl unset ↦ rw unset (ground arith)
  | inr given ↦ rw given refl
]

word_of-cong : (n : ℕ) (f g : ℕ → ℕ) → ((k : ℕ) → k < n → f k ≡ g k) → word_of n f ≡ word_of n g
unfolding word_of
word_of-cong zero f g same = refl
word_of-cong (suc n) f g same =
    rw
      (
        same 0 (omega arith),
        word_of-cong n (λ k. f (suc k)) (λ k. g (suc k)) (λ k h. same (suc k) (omega arith)),
      )
      refl

offset_of-header_sizes : (n : ℕ) → n ≢ 0 → 0 < offset_of n header_sizes
unfolding offset_of
offset_of-header_sizes zero positive = absurd (positive refl)
offset_of-header_sizes (suc n) positive = omega arith

header_offset_behind :
    (f : HeaderField) → header_index f ≢ 0 → 0x1f1 < boot_offset hdr + header_offset f
unfolding header_offset boot_offset sizeof
header_offset_behind f behind = omega (arith, offset_of-header_sizes (header_index f) behind)

module _ (image : Bytes) (pages cmdline : ℕ) where
  -- A field behind setup_sects, or in front of it, is not touched by its default.
  read_field-zeropage :
      (offset size : ℕ)
      → (0x1f1 < offset) ⊎ (offset + size ≤ 0x1f1)
      → read_field (zeropage image pages cmdline) offset size
        ≡ read_field (set_fields image pages cmdline) offset size
  unfolding read_field zeropage
  read_field-zeropage offset size apart =
      word_of-cong size _ _
        (λ k h. set_setup_sects_apart (set_fields image pages cmdline) (offset + k) (ground arith))

  header_field :
      (f : HeaderField)
      → header_index f ≢ 0
      → get_header f (zeropage image pages cmdline) ≡ get_header f (set_fields image pages cmdline)
  unfolding get_header header_index
  header_field f behind =
      read_field-zeropage (boot_offset hdr + header_offset f)
        (size_of (header_index f) header_sizes) (inl (header_offset_behind f behind))

  e820_field :
      (i field : ℕ)
      → get_e820 i field (zeropage image pages cmdline)
        ≡ get_e820 i field (set_fields image pages cmdline)
  unfolding get_e820 boot_offset
  e820_field i field = read_field-zeropage _ _ (inl (omega arith))

  copy_header_inside :
      (i : ℕ)
      → 0x1f1 ≤ i
      → i < 0x26c
      → sizeof_setup_header ≤ image_setup_header_size image
      → copy_header image i ≡ image i
  unfolding copy_header sizeof
  copy_header_inside i from to covers = ground arith

  sectors_field :
      sizeof_setup_header ≤ image_setup_header_size image
      → get_header setup_sects (zeropage image pages cmdline)
        ≡ (if get_header setup_sects image == 0 then 4 else get_header setup_sects image)
  unfolding get_header zeropage set_setup_sects set_fields set_header
  sectors_field covers =
      rw (copy_header_inside 0x1f1 (omega arith) (omega arith) covers) (ground arith)

  -- What the kernel finds, when the setup header of the image reaches to the end of the structure.
  pub record IsZeroPage (z : Bytes) : Type 0 where
    pub command_line : get_header cmd_line_ptr z + get_boot ext_cmd_line_ptr z * 2 ^ 32 ≡ cmdline
    pub loader : get_header type_of_loader z ≡ 0xff
    pub video : get_header vid_mode z ≡ 0xffff
    pub flags : get_header loadflags z ≡ get_header loadflags image % 2 ^ 5
    pub no_ramdisk : (get_header ramdisk_image z ≡ 0) × (get_header ramdisk_size z ≡ 0)
    pub entry_point : get_header pref_address z ≡ get_header pref_address image
    pub alignment : get_header kernel_alignment z ≡ get_header kernel_alignment image
    pub entries : get_boot e820_entries z ≡ 2
    pub low_memory : get_e820 0 0 z ≡ 0
    pub contiguous : get_e820 0 0 z + get_e820 0 1 z ≡ get_e820 1 0 z
    pub high_memory : get_e820 1 0 z + get_e820 1 1 z ≡ pages * page_size
    pub both_ram : (get_e820 0 2 z ≡ 1) × (get_e820 1 2 z ≡ 1)
    pub sectors :
        get_header setup_sects z
        ≡ (if get_header setup_sects image == 0 then 4 else get_header setup_sects image)

  -- The zeropage is as described for an image whose setup header reaches to its end, and a guest
  -- of at least 640 KiB.
  pub zeropage-IsZeroPage :
      cmdline < 2 ^ 64
      → 0xa0 ≤ pages
      → pages < 2 ^ 52
      → sizeof_setup_header ≤ image_setup_header_size image
      → IsZeroPage (zeropage image pages cmdline)
  unfolding get_header get_boot get_e820 set_fields header_index sizeof
  zeropage-IsZeroPage small enough fits covers = record {
    command_line =
        rw (header_field cmd_line_ptr (omega arith), read_field-zeropage 200 4 (inr (omega arith)))
          (omega arith);
    loader = rw (header_field type_of_loader (omega arith)) refl;
    video = rw (header_field vid_mode (omega arith)) refl;
    flags = rw (header_field loadflags (omega arith)) (
        omega (
          arith,
          copy_header_inside 0x211 (omega arith) (omega arith) covers,
          bit_and_low 5 (copy_header image 0x211 + 0),
        ));
    no_ramdisk =
        (header_field ramdisk_image (omega arith), header_field ramdisk_size (omega arith));
    entry_point = rw (header_field pref_address (omega arith)) (
        word_of-cong 8 (λ k. copy_header image (600 + k)) (λ k. image (600 + k))
          (λ k h. copy_header_inside (600 + k) (omega arith) (omega arith) covers));
    alignment = rw (header_field kernel_alignment (omega arith)) (
        word_of-cong 4 (λ k. copy_header image (560 + k)) (λ k. image (560 + k))
          (λ k h. copy_header_inside (560 + k) (omega arith) (omega arith) covers));
    entries = read_field-zeropage 488 1 (inr (omega arith));
    low_memory = rw (e820_field 0 0) refl;
    contiguous = rw (e820_field 0 0, e820_field 0 1, e820_field 1 0) refl;
    high_memory = rw (e820_field 1 0, e820_field 1 1) (omega arith);
    both_ram = (e820_field 0 2, e820_field 1 2);
    sectors = sectors_field covers;
  }

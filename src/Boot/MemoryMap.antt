-- ===== src/Boot/MemoryMap.antt =====
-- The end of efi_main, boot/src/main.c: the memory map of the firmware becomes the list of usable
-- and unusable runs of pages that the chainload page carries.
pub mod Covers
pub mod Turn
pub mod Convert
use rkhv.Base.{
  ℕ, ◌+◌, ◌*◌, ◌%◌, ◌^◌, Bool, true, false, not, ◌&&◌, ◌||◌, Option, none, some, List, [], ◌∷◌, ltb,
  leb, ◌==◌, nonzero, if◌then◌else◌, get_elem?, set,
}
use rkhv.Base.Result.{Result, ok, out_of_bounds, ◌>>=◌}
use rkhv.Memory.{page_size}
use rkhv.Mm.Chainload.{MmapDesc, rkhv_max_efi_mmap_descriptors}

-- EFI_MEMORY_TYPE, `other_type` being any further number.
pub data EfiMemoryType : Type 0 where
  efi_reserved_memory_type efi_loader_code efi_loader_data efi_boot_services_code
        efi_boot_services_data efi_runtime_services_code efi_runtime_services_data
        efi_conventional_memory efi_unusable_memory efi_acpi_reclaim_memory efi_acpi_memory_nvs
        efi_memory_mapped_io efi_memory_mapped_io_port_space efi_pal_code :
      EfiMemoryType
  other_type : ℕ → EfiMemoryType

-- The fields of EFI_MEMORY_DESCRIPTOR that are read.
pub record EfiMemoryDescriptor : Type 0 where
  pub memory_type : EfiMemoryType
  pub physical_start : ℕ
  pub number_of_pages : ℕ

unfoldable pub is_usable : EfiMemoryType → Bool
is_usable efi_loader_code = true
is_usable efi_loader_data = true
is_usable efi_boot_services_code = true
is_usable efi_boot_services_data = true
is_usable efi_conventional_memory = true
is_usable _ = false

-- efi_mmap_index, out_mmap_index and efi_mmap_usable.
pub record Conversion : Type 0 where
  pub efi_mmap_index : ℕ
  pub out_mmap_index : ℕ
  pub efi_mmap_usable : List MmapDesc

abbrev pub same_bool : Bool → Bool → Bool
same_bool true b = b
same_bool false b = not b

-- A run of the same kind that ends where the descriptor starts.
unfoldable pub continues : MmapDesc → EfiMemoryDescriptor → Bool
continues prev desc =
    same_bool prev.usable (is_usable desc.memory_type)
    && (prev.physical_address + prev.pages * page_size) % 2 ^ 64 == desc.physical_start

-- One turn of the loop; `none` is its `break`.
unfoldable pub convert_one : EfiMemoryDescriptor → Conversion → Result (Option Conversion)
unfolding is_usable continues
convert_one desc c = elim (get_elem? c.efi_mmap_usable c.out_mmap_index) [
  | none ↦ out_of_bounds
  | some prev ↦
      let out_mmap_index =
        if c.efi_mmap_index == 0 then c.out_mmap_index else c.out_mmap_index + 1 in
      if not (c.efi_mmap_index == 0) && continues prev desc
      then ok (
          some (record {
            efi_mmap_index = c.efi_mmap_index + 1;
            out_mmap_index = c.out_mmap_index;
            efi_mmap_usable =
                set c.efi_mmap_usable c.out_mmap_index
                  (record prev { pages = (prev.pages + desc.number_of_pages) % 2 ^ 63 });
          }))
      else if leb rkhv_max_efi_mmap_descriptors out_mmap_index
      then ok none
      else ok (
          some (record {
            efi_mmap_index = c.efi_mmap_index + 1;
            out_mmap_index = out_mmap_index;
            efi_mmap_usable = set c.efi_mmap_usable out_mmap_index (record {
              physical_address = desc.physical_start;
              pages = desc.number_of_pages % 2 ^ 63;
              usable = is_usable desc.memory_type;
            });
          }))
]

unfoldable pub convert_loop : List EfiMemoryDescriptor → Conversion → Result (List MmapDesc)
unfolding convert_one
convert_loop [] c = ok c.efi_mmap_usable
convert_loop (desc ∷ descs) c = convert_one desc c >>= λ turn. elim turn [
  | none ↦ ok c.efi_mmap_usable
  | some next ↦ convert_loop descs next
]

-- The whole loop, over the descriptors that the firmware returned.
unfoldable pub convert_mmap : List EfiMemoryDescriptor → List MmapDesc → Result (List MmapDesc)
unfolding convert_loop
convert_mmap descs efi_mmap_usable =
    convert_loop descs
      (record { efi_mmap_index = 0; out_mmap_index = 0; efi_mmap_usable = efi_mmap_usable })

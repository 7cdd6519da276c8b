-- ===== src/Tests/BootRuns.antt =====
-- A pool of one page table region that a new page extends, and a memory map of two runs.
use rkhv.Base.{ℕ, ◌≡◌, ◌≤◌, ◌⊎◌, ◌||◌, List, [], ◌∷◌, length, arith}
use rkhv.Base.Result.{ok}
use rkhv.Mm.Chainload.{Region, MmapDesc}
use rkhv.Boot.Paging.{success, error, buffer_too_small, add_to_pool}
use rkhv.Boot.Paging.Pool.{covers, covered, add_to_pool-covered}
use rkhv.Boot.MemoryMap.{
  EfiMemoryDescriptor, convert_mmap, efi_conventional_memory, efi_loader_data, efi_acpi_memory_nvs,
}
use rkhv.Boot.MemoryMap.Convert.{IsConverted, blank_mmap, convert_mmap-IsConverted}

abbrev pool : List Region
pool = record { physical_address = 0x5000; pages = 3 } ∷ []

add_to_pool-covered_example :
    ((pool' : List Region) × (add_to_pool 0x4000 1 16 pool ≡ success pool')
      × (covered pool' 0x4800 ≡ (covered pool 0x4800 || covers 0x4000 1 0x4800)))
    ⊎ ((16 ≤ length pool) × (add_to_pool 0x4000 1 16 pool ≡ error buffer_too_small))
add_to_pool-covered_example =
    add_to_pool-covered 0x4000 1 (omega arith) 16 pool 0x4800 (omega arith, tt)

abbrev firmware_map : List EfiMemoryDescriptor
firmware_map =
    record { memory_type = efi_conventional_memory; physical_start = 0; number_of_pages = 16 }
    ∷ record { memory_type = efi_loader_data; physical_start = 0x10000; number_of_pages = 4 }
    ∷ record { memory_type = efi_acpi_memory_nvs; physical_start = 0x14000; number_of_pages = 1 }
    ∷ []

convert_mmap-IsConverted_example :
    (out : List MmapDesc) × (n : ℕ) × (convert_mmap firmware_map blank_mmap ≡ ok out)
    × IsConverted firmware_map out n
convert_mmap-IsConverted_example =
    convert_mmap-IsConverted firmware_map
      ((omega arith, omega arith), ((omega arith, omega arith), ((omega arith, omega arith), tt)))

-- ===== src/Boot/MemoryMap/Covers.antt =====
-- What the converted memory map says of each byte of physical memory.
use rkhv.Base.{
  ℕ, zero, suc, ◌+◌, ◌*◌, ◌%◌, ◌^◌, ◌<◌, ◌≡◌, arith, Bool, true, false, ◌&&◌, ◌||◌, some, List, [],
  ◌∷◌, ltb, leb, get_elem?, set,
}
use rkhv.Memory.{page_size}
use rkhv.Mm.Chainload.{MmapDesc}
use rkhv.Boot.MemoryMap.{EfiMemoryDescriptor, is_usable, same_bool, continues}

-- The address stands in a run that is usable or not.
unfoldable pub in_mmap_desc : ℕ → Bool → MmapDesc → Bool
in_mmap_desc address usable d =
    same_bool d.usable usable
    && leb d.physical_address address
    && ltb address (d.physical_address + d.pages * page_size)

unfoldable pub in_mmap : ℕ → Bool → List MmapDesc → Bool
unfolding in_mmap_desc
in_mmap address usable [] = false
in_mmap address usable (d ∷ ds) = in_mmap_desc address usable d || in_mmap address usable ds

unfoldable pub in_descriptor : ℕ → Bool → EfiMemoryDescriptor → Bool
in_descriptor address usable d =
    same_bool (is_usable d.memory_type) usable
    && leb d.physical_start address
    && ltb address (d.physical_start + d.number_of_pages * page_size)

unfoldable pub in_descriptors : ℕ → Bool → List EfiMemoryDescriptor → Bool
unfolding in_descriptor
in_descriptors address usable [] = false
in_descriptors address usable (d ∷ ds) =
    in_descriptor address usable d || in_descriptors address usable ds

pub in_mmap-set :
    (address : ℕ) (usable extra : Bool) (ds : List MmapDesc) (i : ℕ) (old new : MmapDesc)
    → get_elem? ds i ≡ some old
    → in_mmap_desc address usable new ≡ (in_mmap_desc address usable old || extra)
    → in_mmap address usable (set ds i new) ≡ (in_mmap address usable ds || extra)
unfolding in_mmap
in_mmap-set address usable extra [] i old new at grown = ground arith
in_mmap-set address usable extra (d ∷ ds) zero old new at grown =
    let same : d ≡ old = ground arith in rw same (ground (arith, grown))
in_mmap-set address usable extra (d ∷ ds) (suc i) old new at grown =
    ground (arith, in_mmap-set address usable extra ds i old new at grown)

-- A run that ends at a descriptor, and the descriptor, make one run.
pub in_mmap_desc-continues :
    (address : ℕ) (usable : Bool) (prev : MmapDesc) (desc : EfiMemoryDescriptor)
    → prev.physical_address + prev.pages * page_size < 2 ^ 64
    → desc.physical_start + desc.number_of_pages * page_size < 2 ^ 64
    → continues prev desc ≡ true
    → in_mmap_desc address usable
        (record prev { pages = (prev.pages + desc.number_of_pages) % 2 ^ 63 })
      ≡ (in_mmap_desc address usable prev || in_descriptor address usable desc)
unfolding in_mmap_desc in_descriptor continues
in_mmap_desc-continues address usable prev desc prev_fits fits joined = ground arith

-- A new run in a place that covered nothing.
pub in_mmap_desc-new :
    (address : ℕ) (usable : Bool) (old : MmapDesc) (desc : EfiMemoryDescriptor)
    → old.pages ≡ 0
    → desc.physical_start + desc.number_of_pages * page_size < 2 ^ 64
    → in_mmap_desc address usable (record {
      physical_address = desc.physical_start;
      pages = desc.number_of_pages % 2 ^ 63;
      usable = is_usable desc.memory_type;
    })
      ≡ (in_mmap_desc address usable old || in_descriptor address usable desc)
unfolding in_mmap_desc in_descriptor
in_mmap_desc-new address usable old desc blank fits = ground arith

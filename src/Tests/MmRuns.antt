-- ===== src/Tests/MmRuns.antt =====
-- A small memory map, a boot loader's pages and a list of two arenas.
use rkhv.Base.{
  ◌||◌, ℕ, zero, suc, ◌≡◌, refl, ◌<◌, ◌≤◌, ◌^◌, ◌⊎◌, ◌+◌, Bool, true, false, List, [], ◌∷◌, some,
  replicate, get_elem?, arith, if◌then◌else◌, ◌==◌, bit_and,
}
use rkhv.Base.Result.{Result, ok, panic, out_of_bounds, subarenas_unsupported}
use rkhv.Memory.{page_size, p2v_identity_map}
use rkhv.Paging.{page_mask}
use rkhv.Mm.Chainload.{
  MmapDesc, Region, Attachment, ChainloadPage, mm_page_used_by_chainload, Holds, in_attachment,
  mm_page_used_by_chainload-Holds,
}
use rkhv.Mm.FreePage.{Position, Found, size_max, mm_get_free_page}
use rkhv.Mm.FreePage.Sound.{IsMap, IsFound, mm_get_free_page-IsFound}
use rkhv.Mm.FreePage.Complete.{IsUsual, Outcome, mm_get_free_page-Outcome}
use rkhv.Mm.FreePage.Stuck.{NoneUpTo, IsExhausted, mm_get_free_page-out_of_bounds}
use rkhv.Mm.Arena.{Ptr, Arenas, arena_create, arena_destroy, arena_allocate, mm_page_used_by_arena}
use rkhv.Mm.Arena.Chain.{IsArenas}
use rkhv.Mm.Arena.Lists.{arena_create-IsArenas}
use rkhv.Mm.Arena.Destroy.{arena_destroy-IsArenas}
use rkhv.Mm.Arena.Used.{stands_in, mm_page_used_by_arena-stands_in}
use rkhv.Mm.Arena.Alloc.{IsAllocated, arena_allocate-Outcome}
use rkhv.Mm.VmxPages.{
  VmxPages, store32, on_page, vmx_get_vmcs_revision_identifier, mm_page_used_by_vmx,
  vmx_get_vmxon_region, vmx_get_msr_bitmaps_page,
}
use rkhv.Mm.VmxPages.Cached.{
  vmx_get_vmxon_region-mm_page_used_by_vmx, vmx_get_msr_bitmaps_page-mm_page_used_by_vmx,
}
use rkhv.Vm.Msr.{vmx_msr_init_bitmaps}

abbrev no_desc : MmapDesc
no_desc = record { physical_address = 0; pages = 0; usable = false }

abbrev two_pages : MmapDesc
two_pages = record { physical_address = 0x1000; pages = 2; usable = true }

abbrev low_map : List MmapDesc
low_map = two_pages ∷ replicate 230 no_desc

abbrev high_map : List MmapDesc
high_map = no_desc ∷ two_pages ∷ replicate 229 no_desc

abbrev unset : Position
unset = record { region = size_max; page = size_max }

abbrev is_first : ℕ → Bool
is_first p = p == 0x1000

none_replicate : (n i : ℕ) (e : MmapDesc) → get_elem? (replicate n no_desc) i ≡ some e → e ≡ no_desc
none_replicate zero i e h = cc
none_replicate (suc n) zero e h = ground (arith, h)
none_replicate (suc n) (suc i) e h = none_replicate n i e h

IsMap-replicate : (n : ℕ) → IsMap (replicate n no_desc)
IsMap-replicate n i e h = ground (arith, none_replicate n i e h)

IsMap-cons : (d : MmapDesc) (map : List MmapDesc) → d.pages < 2 ^ 63 → IsMap map → IsMap (d ∷ map)
IsMap-cons d map lt m zero e h = ground (arith, h)
IsMap-cons d map lt m (suc i) e h = m i e h

low_map-IsUsual : IsUsual low_map
low_map-IsUsual = record {
  small = IsMap-cons two_pages (replicate 230 no_desc) (omega arith) (IsMap-replicate 230);
  full = refl;
  desc = two_pages;
  first = refl;
  usable = refl;
  pos = omega arith;
}

mm_get_free_page-Outcome_example :
    Outcome low_map is_first low_map-IsUsual (mm_get_free_page low_map is_first 3 unset)
unfolding rkhv.Mm.FreePage.Rank.before
mm_get_free_page-Outcome_example =
    mm_get_free_page-Outcome low_map is_first low_map-IsUsual 3 unset (λ e. cc) (omega arith)

mm_get_free_page-IsFound_example : IsFound low_map is_first 0x1000 (record { region = 0; page = 0 })
unfolding mm_get_free_page rkhv.Mm.FreePage.first_position rkhv.Mm.FreePage.scan_down
    rkhv.Mm.FreePage.search_loop rkhv.Mm.FreePage.page_address rkhv.Mm.FreePage.next_position
mm_get_free_page-IsFound_example =
    mm_get_free_page-IsFound low_map is_first low_map-IsUsual.small 3 unset 0x1000
      (record { region = 0; page = 0 }) (λ e. cc) refl

high_map-IsExhausted : IsExhausted high_map (λ p. false) (record { region = 1; page = 1 })
high_map-IsExhausted = record {
  small =
      IsMap-cons no_desc (two_pages ∷ replicate 229 no_desc) (omega arith)
        (IsMap-cons two_pages (replicate 229 no_desc) (omega arith) (IsMap-replicate 229));
  full = refl;
  at = record { desc = two_pages; found = refl; usable = refl; inside = omega arith };
  above_zero = omega arith;
  none_below = first_only;
  used = λ page le. refl;
}
  where
    first_only : NoneUpTo high_map 0
    first_only zero d le h = ground (arith, h)
    first_only (suc j) d le h = absurd (omega arith)

mm_get_free_page-out_of_bounds_example :
    mm_get_free_page high_map (λ p. false) 2 (record { region = 1; page = 1 }) ≡ some out_of_bounds
mm_get_free_page-out_of_bounds_example =
    mm_get_free_page-out_of_bounds high_map (λ p. false) 2 (record { region = 1; page = 1 })
      high_map-IsExhausted (omega arith)

abbrev chainload_page : ChainloadPage
chainload_page = record {
  rkhv_sections = record { physical_address = 0x100000; pages = 16 } ∷ [];
  own_address = 0x200000;
  attachments = record { physical_address = 0x300000; size = 5000; attachment_type = 0x4c } ∷ [];
  page_table_regions = [];
  efi_mmap_usable = low_map;
}

chainload-Holds_example : mm_page_used_by_chainload chainload_page 0x301387 ≡ true
unfolding rkhv.Mm.Chainload.attachment_pages
chainload-Holds_example =
    mm_page_used_by_chainload-Holds chainload_page 0x301387
      (in_attachment 0 refl refl (refl, omega arith) (omega arith) (omega arith))

abbrev first_arena : Ptr
first_arena = 0x10000001000

abbrev second_arena : Ptr
second_arena = 0x10000002000

abbrev arenas : Arenas
arenas = record {
  head = first_arena;
  header = λ p.
      if p == first_arena
      then record { prev = 0; next = second_arena; subarenas = 0; used_size = 100 }
      else record { prev = first_arena; next = 0; subarenas = 0; used_size = 24 };
  sub_header = λ p. record { next = 0; used_size = 0 };
}

arenas-IsArenas : IsArenas arenas (first_arena ∷ second_arena ∷ [])
arenas-IsArenas = record {
  head_is = refl;
  chain = (
    (λ e. ground arith),
    refl,
    refl,
    refl,
    refl,
    ((λ e. ground arith), refl, refl, refl, refl, tt),
  );
}

arena_create-IsArenas_example :
    (a' : Arenas) × (arena_create arenas 0x7000 ≡ ok (p2v_identity_map 0x7000, a'))
    × IsArenas a' (p2v_identity_map 0x7000 ∷ first_arena ∷ second_arena ∷ [])
unfolding p2v_identity_map
arena_create-IsArenas_example =
    arena_create-IsArenas arenas (first_arena ∷ second_arena ∷ []) 0x7000 arenas-IsArenas
      (λ e. ground arith) refl

arena_destroy-IsArenas_example :
    (a' : Arenas) × (arena_destroy arenas second_arena ≡ ok a') × IsArenas a' (first_arena ∷ [])
arena_destroy-IsArenas_example =
    arena_destroy-IsArenas arenas second_arena (first_arena ∷ []) [] arenas-IsArenas

mm_page_used_by_arena-stands_in_example :
    mm_page_used_by_arena arenas 3 0x2010
    ≡ some (stands_in (bit_and 0x2010 page_mask) (first_arena ∷ second_arena ∷ []))
mm_page_used_by_arena-stands_in_example =
    mm_page_used_by_arena-stands_in arenas (first_arena ∷ second_arena ∷ []) 3 0x2010
      arenas-IsArenas (omega arith)

arena_allocate-Outcome_example :
    (((arenas.header first_arena).used_size + 32 + 64 ≤ page_size)
      × ((block : Ptr) × (a' : Arenas) × (arena_allocate arenas first_arena 64 ≡ ok (block, a'))
          × IsAllocated arenas a' first_arena block 64))
    ⊎ ((page_size < (arenas.header first_arena).used_size + 32 + 64)
        × (arena_allocate arenas first_arena 64 ≡ panic subarenas_unsupported))
arena_allocate-Outcome_example =
    arena_allocate-Outcome arenas first_arena 64
      (record { in_space = omega arith; in_page = omega arith })

abbrev no_vmx_pages : VmxPages
no_vmx_pages = record {
  vmxon_region_valid = false;
  vmxon_region = 0;
  msr_bitmaps_page_valid = false;
  msr_bitmaps_page = 0;
  memory = λ a. 0;
}

abbrev next_page : ℕ → Result (ℕ × ℕ)
next_page r = ok (r, r + 4096)

abbrev basic : ℕ → ℕ
basic a = 18

abbrev with_vmxon : VmxPages
with_vmxon = record no_vmx_pages {
  vmxon_region_valid = true;
  vmxon_region = 0x5000;
  memory = store32 0x5000 (vmx_get_vmcs_revision_identifier basic) (λ a. 0);
}

vmx_get_vmxon_region-mm_page_used_by_vmx_example :
    (vmx_get_vmxon_region next_page basic with_vmxon 0x9000 ≡ ok (0x5000, with_vmxon, 0x9000))
    × (mm_page_used_by_vmx 0x5000 with_vmxon ≡ (mm_page_used_by_vmx 0x5000 no_vmx_pages || true))
unfolding vmx_get_vmxon_region
vmx_get_vmxon_region-mm_page_used_by_vmx_example =
    vmx_get_vmxon_region-mm_page_used_by_vmx next_page basic no_vmx_pages with_vmxon 0x5000 0x6000
      0x9000 0x5000 0x5000 refl

abbrev with_bitmaps : VmxPages
with_bitmaps = record no_vmx_pages {
  msr_bitmaps_page_valid = true;
  msr_bitmaps_page = 0x5000;
  memory = on_page 0x5000 vmx_msr_init_bitmaps (λ a. 0);
}

vmx_get_msr_bitmaps_page-mm_page_used_by_vmx_example :
    (vmx_get_msr_bitmaps_page next_page basic with_bitmaps 0x9000
      ≡ ok (0x5000, with_bitmaps, 0x9000))
    × (mm_page_used_by_vmx 0x5000 with_bitmaps ≡ (mm_page_used_by_vmx 0x5000 no_vmx_pages || true))
unfolding vmx_get_msr_bitmaps_page
vmx_get_msr_bitmaps_page-mm_page_used_by_vmx_example =
    vmx_get_msr_bitmaps_page-mm_page_used_by_vmx next_page basic no_vmx_pages with_bitmaps 0x5000
      0x6000 0x9000 0x5000 0x5000 refl

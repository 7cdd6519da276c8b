-- ===== src/Tests/MachineRuns.antt =====
-- A machine whose tables and memory come from a memory map with one usable region.
use rkhv.Base.{
  ℕ, zero, suc, ◌^◌, ◌≡◌, ◌≤◌, refl, subst, true, false, none, some, List, [], ◌∷◌, replicate,
  get_elem?, arith, ◌+◌, ◌*◌,
}
use rkhv.Base.Result.{Result, ok, panic, out_of_bounds}
use rkhv.Boot.MemoryMap.Convert.{blank_desc, get_elem?-replicate}
use rkhv.Memory.{page_size, IsPage, entry, set_entry, clear_page}
use rkhv.Mm.Chainload.{MmapDesc}
use rkhv.Mm.FreePage.{size_max}
use rkhv.Vm.Ept.{State, vmx_ept_map_page}
use rkhv.Vm.Ept.Tree.{Role}
use rkhv.Vm.Ept.Root.{IsEpt}
use rkhv.Vm.Ept.MapPage.{Mapped}
use rkhv.Vm.GuestMemory.{GuestState, vm_manager_allocate_guest_physical_memory}
use rkhv.Vm.GuestMemory.Allocate.{Backs}
use rkhv.Vm.PageSource.{Source, source_pages, memory_pages}
use rkhv.Vm.PageSource.Laws.{IsPhysical, source-PageLaws}
use rkhv.Vm.PageSource.Machine.{vmx_ept_map_page-Mapped, allocate_guest_physical_memory-Backs}

abbrev region : MmapDesc
region = record { physical_address = 0x100000; pages = 64; usable = true }

abbrev map : List MmapDesc
map = region ∷ replicate 230 blank_desc

map-IsPhysical : IsPhysical map
map-IsPhysical = record { aligned = aligned; small = small }
  where
    aligned : (i : ℕ) (d : MmapDesc) → get_elem? map i ≡ some d → IsPage d.physical_address
    aligned zero d at = ground arith
    aligned (suc i) d at =
        subst (λ (e : MmapDesc). IsPage e.physical_address)
          (get_elem?-replicate 230 i blank_desc d at) refl

    small :
        (i : ℕ) (d : MmapDesc)
        → get_elem? map i ≡ some d
        → d.physical_address + d.pages * page_size ≤ 2 ^ 52
    small zero d at = ground arith
    small (suc i) d at =
        subst (λ (e : MmapDesc). e.physical_address + e.pages * page_size ≤ 2 ^ 52)
          (get_elem?-replicate 230 i blank_desc d at) (omega arith)

abbrev source : Source
source = record {
  position = record { region = size_max; page = size_max };
  tracker = record {
    tracked_pages = [];
    vm_manager_arena = 0x10000005000;
    arenas = record {
      head = 0x10000005000;
      header = λ p. record { prev = 0; next = 0; subarenas = 0; used_size = 0 };
      sub_header = λ p. record { next = 0; used_size = 0 };
    };
  };
  chainload_page = record {
    rkhv_sections = [];
    own_address = 0x13f000;
    attachments = [];
    page_table_regions = [];
    efi_mmap_usable = map;
  };
  vmx = record {
    vmxon_region_valid = false;
    vmxon_region = 0;
    msr_bitmaps_page_valid = false;
    msr_bitmaps_page = 0;
    memory = λ i. 0;
  };
  flags = 0;
  vmcs_region = 0;
  others = [];
}

abbrev start : State Source
start = record { memory = λ i. 5; flags = 0; eptp = 0; rest = source }

start-IsEpt : IsEpt (source-PageLaws 2 100) start (λ t. none)
unfolding source-PageLaws rkhv.Vm.Tracked.Runs.held rkhv.Vm.Tracked.Runs.tracked
start-IsEpt = record {
  rooted = λ set. cc;
  blank = λ clear t. refl;
  sound = record {
    kept = record {
      runs = tt;
      once = λ p pl. omega arith;
      tables = λ t u. cc;
      empty = λ p j pl at h. cc;
    };
    physical = map-IsPhysical;
    at = λ set. cc set;
  };
}

abbrev result : Result (State Source)
result = vmx_ept_map_page (source_pages 2 100) 0x3000 0x7000 start

abbrev mapped : State Source
mapped = elim result [ ok s ↦ s | panic p ↦ start | out_of_bounds ↦ start ]

mapped-is : result ≡ ok mapped
unfolding rkhv.Vm.PageSource.get_free_page rkhv.Vm.PageSource.is_free rkhv.Vm.PageSource.track
    rkhv.Vm.PageSource.users rkhv.Mm.FreePage.mm_get_free_page rkhv.Mm.FreePage.first_position
    rkhv.Mm.FreePage.scan_down rkhv.Mm.FreePage.search_loop rkhv.Mm.FreePage.page_address
    rkhv.Mm.FreePage.next_position rkhv.Mm.VmxPages.mm_page_is_free
    rkhv.Mm.VmxPages.mm_page_used_by_vmx rkhv.Mm.Chainload.mm_page_used_by_chainload
    rkhv.Mm.Chainload.used_by_region rkhv.Mm.Chainload.used_by_attachment
    rkhv.Mm.Arena.mm_page_used_by_arena rkhv.Mm.Arena.used_by_arena_loop rkhv.Mm.Arena.used_by_sub
    rkhv.Mm.Arena.arena_allocate rkhv.Vm.Tracked.mm_page_used_by_vm_manager rkhv.Vm.Tracked.in_runs
    rkhv.Vm.Tracked.in_run rkhv.Vm.Tracked.last_page rkhv.Vm.Tracked.matches
    rkhv.Vm.Tracked.vm_manager_track_page rkhv.Vm.Tracked.track_in_lists
    rkhv.Vm.Tracked.track_in_node rkhv.Vm.Tracked.reuse_empty
    rkhv.Vm.Tracked.vm_manager_untrack_page_from_reserved_pool rkhv.Vm.Tracked.untrack_in_lists
    rkhv.Memory.v2p_identity_map vmx_ept_map_page rkhv.Vm.Ept.get_pml4 rkhv.Vm.Ept.take_table
    rkhv.Vm.Ept.next_table entry clear_page rkhv.Paging.linear_address_get_pml4 set_entry
    rkhv.Paging.linear_address_get_directory_ptr rkhv.Paging.linear_address_get_directory
    rkhv.Vm.Ept.map_in_table rkhv.Paging.linear_address_get_table rkhv.Vm.Ept.vmx_get_free_ept_page
mapped-is = refl

vmx_ept_map_page-Mapped_example :
    (role : Role) × IsEpt (source-PageLaws 2 100) mapped role
    × Mapped (source-PageLaws 2 100) 0x3000 0x7000 start mapped
vmx_ept_map_page-Mapped_example =
    vmx_ept_map_page-Mapped 2 100 0x3000 0x7000 start mapped (λ t. none) start-IsEpt mapped-is

abbrev blank : GuestState Source
blank = record { guest_physical_pages = 0; ept = start }

abbrev allocated : GuestState Source
allocated = elim (vm_manager_allocate_guest_physical_memory (memory_pages 2 100) 2 blank) [
  | ok s ↦ s
  | panic p ↦ blank
  | out_of_bounds ↦ blank
]

allocated-is : vm_manager_allocate_guest_physical_memory (memory_pages 2 100) 2 blank ≡ ok allocated
unfolding vm_manager_allocate_guest_physical_memory rkhv.Vm.GuestMemory.reserve_tables
    rkhv.Vm.GuestMemory.reserve_one rkhv.Vm.GuestMemory.map_pages rkhv.Vm.GuestMemory.map_one
    rkhv.Vm.GuestMemory.vm_manager_get_free_guest_physical_page rkhv.Vm.Machines.ept_pages
    rkhv.Vm.PageSource.get_free_page rkhv.Vm.PageSource.is_free rkhv.Vm.PageSource.track
    rkhv.Vm.PageSource.users rkhv.Mm.FreePage.mm_get_free_page rkhv.Mm.FreePage.first_position
    rkhv.Mm.FreePage.scan_down rkhv.Mm.FreePage.search_loop rkhv.Mm.FreePage.page_address
    rkhv.Mm.FreePage.next_position rkhv.Mm.VmxPages.mm_page_is_free
    rkhv.Mm.VmxPages.mm_page_used_by_vmx rkhv.Mm.Chainload.mm_page_used_by_chainload
    rkhv.Mm.Chainload.used_by_region rkhv.Mm.Chainload.used_by_attachment
    rkhv.Mm.Arena.mm_page_used_by_arena rkhv.Mm.Arena.used_by_arena_loop rkhv.Mm.Arena.used_by_sub
    rkhv.Mm.Arena.arena_allocate rkhv.Vm.Tracked.mm_page_used_by_vm_manager rkhv.Vm.Tracked.in_runs
    rkhv.Vm.Tracked.in_run rkhv.Vm.Tracked.last_page rkhv.Vm.Tracked.matches
    rkhv.Vm.Tracked.vm_manager_track_page rkhv.Vm.Tracked.track_in_lists
    rkhv.Vm.Tracked.track_in_node rkhv.Vm.Tracked.reuse_empty
    rkhv.Vm.Tracked.vm_manager_untrack_page_from_reserved_pool rkhv.Vm.Tracked.untrack_in_lists
    rkhv.Memory.v2p_identity_map vmx_ept_map_page rkhv.Vm.Ept.get_pml4 rkhv.Vm.Ept.take_table
    rkhv.Vm.Ept.next_table entry clear_page rkhv.Paging.linear_address_get_pml4 set_entry
    rkhv.Paging.linear_address_get_directory_ptr rkhv.Paging.linear_address_get_directory
    rkhv.Vm.Ept.map_in_table rkhv.Paging.linear_address_get_table rkhv.Vm.Ept.vmx_get_free_ept_page
allocated-is = refl

allocate_guest_physical_memory-Backs_example :
    (blank.guest_physical_pages ≡ 0)
    × (allocated.guest_physical_pages ≡ 2)
    × ((role' : Role) × IsEpt (source-PageLaws 2 100) allocated.ept role')
    × ((host : ℕ → ℕ) × Backs 0 2 host start allocated.ept)
allocate_guest_physical_memory-Backs_example =
    allocate_guest_physical_memory-Backs 2 100 2 blank allocated (λ t. none) (omega arith)
      start-IsEpt allocated-is

-- ===== src/Vm/GuestMemory.antt =====
-- vm_manager_allocate_guest_physical_memory of hv/src/vmm/vm_manager.c: tables are put aside, and
-- every page of the guest gets a page of the host.
pub mod Step
pub mod Allocate
use rkhv.Base.{ℕ, zero, suc, ◌+◌, ◌*◌, ◌%◌, ◌^◌, ◌==◌, not, if◌then◌else◌}
use rkhv.Base.Result.{Result, ok, panic, guest_memory_reallocated, ◌>>=◌}
use rkhv.Memory.{page_size, clear_page}
use rkhv.Vm.Ept.{TablePages, State, vmx_get_free_ept_page, vmx_ept_map_page}
use rkhv.Vm.Machines.{ept_pages}

-- The tables, and the two other ways in which a page is tracked.
pub record MemoryPages (R : Type 0) : Type 0 where
  pub tables : TablePages R
  -- vm_manager_track_page(vm, page, VM_PAGE_TYPE_EPT, true)
  pub reserve : ℕ → R → Result R
  -- vm_manager_track_page(vm, page, VM_PAGE_TYPE_GUEST_PHYSICAL, false)
  pub track_guest : ℕ → R → Result R

-- The fields of `vm_t` that are read and written.
pub record GuestState (R : Type 0) : Type 0 where
  pub guest_physical_pages : ℕ
  pub ept : State R

module _ {R : Type 0} (pages : MemoryPages R) where
  open pages use {tables, reserve, track_guest}

  -- mm_get_free_page, and the page is cleared.
  unfoldable pub vm_manager_get_free_guest_physical_page : State R → Result (ℕ × State R)
  vm_manager_get_free_guest_physical_page s = do
    (page, r) ← tables.get_free_page s.rest
    ok (page, record s { memory = clear_page s.memory page; rest = r })

  unfoldable pub reserve_one : State R → Result (State R)
  reserve_one s = do
    (page, t) ← vmx_get_free_ept_page tables s
    r ← reserve page t.rest
    ok (record t { rest = r })

  -- The first loop.
  unfoldable pub reserve_tables : ℕ → State R → Result (State R)
  reserve_tables zero s = ok s
  reserve_tables (suc rounds) s = reserve_one s >>= reserve_tables rounds

  -- The page of the guest with a number.
  unfoldable pub map_one : ℕ → State R → Result (State R)
  map_one i s = do
    (page, t) ← vm_manager_get_free_guest_physical_page s
    r ← track_guest page t.rest
    vmx_ept_map_page tables (i * page_size % 2 ^ 64) page (record t { rest = r })

  -- The second loop, from page `i` on.
  unfoldable pub map_pages : ℕ → ℕ → State R → Result (State R)
  map_pages zero i s = ok s
  map_pages (suc rounds) i s = map_one i s >>= map_pages rounds (i + 1)

  unfoldable pub vm_manager_allocate_guest_physical_memory :
      ℕ → GuestState R → Result (GuestState R)
  vm_manager_allocate_guest_physical_memory guest_physical_pages s =
      if not (s.guest_physical_pages == 0) then panic guest_memory_reallocated else do
        reserved ← reserve_tables (ept_pages guest_physical_pages) s.ept
        mapped ← map_pages guest_physical_pages 0 reserved
        ok (record { guest_physical_pages = guest_physical_pages; ept = mapped })

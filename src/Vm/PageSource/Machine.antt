-- ===== src/Vm/PageSource/Machine.antt =====
-- The EPT of a machine, hv/src/vmm/vmx_ept.c, and the allocation of its memory, with the tables
-- and the pages that hv/src/vmm/vm_manager.c and the page allocator give.
use rkhv.Base.{ℕ, ◌^◌, ◌≤◌, ◌≡◌}
use rkhv.Base.Result.{ok}
use rkhv.Vm.Ept.{State, vmx_ept_map_page}
use rkhv.Vm.Ept.Tree.{Role}
use rkhv.Vm.Ept.Root.{IsEpt}
use rkhv.Vm.Ept.MapPage.{Mapped, vmx_ept_map_page-translate}
use rkhv.Vm.GuestMemory.{GuestState, vm_manager_allocate_guest_physical_memory}
use rkhv.Vm.GuestMemory.Allocate.{Backs, vm_manager_allocate_guest_physical_memory-Backs}
use rkhv.Vm.PageSource.{Source, source_pages, memory_pages}
use rkhv.Vm.PageSource.Laws.{source-PageLaws, source-MemoryLaws}

module _ (arenas turns : ℕ) where
  -- When the tables come from the reserved pool and from mm_get_free_page, and the EPT is well
  -- formed, a call of vmx_ept_map_page that comes back makes every address of the guest page of
  -- `g` translate to the same offset of the host page of `h`, leaves every other translation as it
  -- was, whether it succeeded or failed, and keeps the EPT well formed. That includes that the
  -- tables in use are tracked, no two tracked runs share a page and the pages of the pool are empty.
  pub vmx_ept_map_page-Mapped :
      (g h : ℕ) (s s' : State Source) (role : Role)
      → IsEpt (source-PageLaws arenas turns) s role
      → vmx_ept_map_page (source_pages arenas turns) g h s ≡ ok s'
      → (role' : Role) × IsEpt (source-PageLaws arenas turns) s' role'
        × Mapped (source-PageLaws arenas turns) g h s s'
  vmx_ept_map_page-Mapped g h s s' role w done =
      vmx_ept_map_page-translate (source-PageLaws arenas turns) g h s s' role w done

  -- When the memory of a machine, at most 2^36 pages, is allocated, with the pages that the
  -- tracked pages and mm_get_free_page give and a well-formed EPT, and the call comes back: the
  -- machine had no memory and has that number of pages, each of them translates, byte by byte, to
  -- one page of the host, every other address translates as it did, and the EPT is well formed.
  pub allocate_guest_physical_memory-Backs :
      (n : ℕ) (s s' : GuestState Source) (role : Role)
      → n ≤ 2 ^ 36
      → IsEpt (source-PageLaws arenas turns) s.ept role
      → vm_manager_allocate_guest_physical_memory (memory_pages arenas turns) n s ≡ ok s'
      → (s.guest_physical_pages ≡ 0)
        × (s'.guest_physical_pages ≡ n)
        × ((role' : Role) × IsEpt (source-PageLaws arenas turns) s'.ept role')
        × ((host : ℕ → ℕ) × Backs 0 n host s.ept s'.ept)
  unfolding source-MemoryLaws
  allocate_guest_physical_memory-Backs n s s' role small w done =
      vm_manager_allocate_guest_physical_memory-Backs (source-MemoryLaws arenas turns) n s s' role
        small w done

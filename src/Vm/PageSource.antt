-- ===== src/Vm/PageSource.antt =====
-- The pages that the EPT code and the allocation of a machine's memory take: the reserved pool and
-- the list of tracked pages of hv/src/vmm/vm_manager.c, and mm_get_free_page of
-- hv/src/memory_management/memory_management.c behind them.
pub mod Counts
pub mod Step
pub mod Laws
pub mod Machine
use rkhv.Base.{ℕ, Bool, true, false, none, some, List, ◌∷◌}
use rkhv.Base.Result.{Result, ok, panic, out_of_bounds, ◌>>=◌}
use rkhv.Mm.Chainload.{ChainloadPage}
use rkhv.Mm.FreePage.{Position, mm_get_free_page}
use rkhv.Mm.VmxPages.{VmxPages, Users, mm_page_is_free}
use rkhv.Vm.Ept.{TablePages}
use rkhv.Vm.Tracked.{
  PageType, ept, guest_physical, Tracker, VmPages, vm_manager_track_page,
  vm_manager_untrack_page_from_reserved_pool,
}
use rkhv.Vm.GuestMemory.{MemoryPages}

-- The static variables of mm_get_free_page, the pages of the machine, and the other users of
-- pages. `flags` and `vmcs_region` are those of the machine.
pub record Source : Type 0 where
  pub position : Position
  pub tracker : Tracker
  pub chainload_page : ChainloadPage
  pub vmx : VmxPages
  pub flags : ℕ
  pub vmcs_region : ℕ
  pub others : List VmPages

unfoldable pub users : Source → Users
users s = record {
  chainload_page = s.chainload_page;
  arenas = (s.tracker).arenas;
  vmx = s.vmx;
  machines =
      record {
        flags = s.flags;
        vmcs_region = s.vmcs_region;
        tracked_pages = (s.tracker).tracked_pages;
      }
      ∷ s.others;
}

-- mm_page_is_free with fuel for the list of arenas; a list that is longer has no free page.
unfoldable pub is_free : ℕ → Source → ℕ → Bool
unfolding users
is_free arenas s page = elim (mm_page_is_free (users s) arenas page) [
  | none ↦ false
  | some free ↦ free
]

-- Fuel for the list of arenas and for the turns of the search. Without enough of the latter there
-- is no answer, and the run ends.
module _ (arenas turns : ℕ) where
  unfoldable pub get_free_page : Source → Result (ℕ × Source)
  unfolding is_free
  get_free_page s =
      elim (mm_get_free_page (s.chainload_page).efi_mmap_usable (is_free arenas s) turns
        s.position) [
          | none ↦ out_of_bounds
          | some found ↦ found >>= λ f. ok (f.0, record s { position = f.1 })
        ]

  unfoldable pub track : PageType → Bool → ℕ → Source → Result Source
  track page_type pool page s =
      vm_manager_track_page page page_type pool s.tracker >>= λ t. ok (record s { tracker = t })

  abbrev pub source_pages : TablePages Source
  source_pages = record {
    untrack = λ s. elim (vm_manager_untrack_page_from_reserved_pool ept s.tracker) [
      | none ↦ none
      | some (p, t) ↦ some (p, record s { tracker = t })
    ];
    get_free_page = get_free_page;
    track = track ept false;
  }

  abbrev pub memory_pages : MemoryPages Source
  memory_pages = record {
    tables = source_pages;
    reserve = track ept true;
    track_guest = track guest_physical false;
  }

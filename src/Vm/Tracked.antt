-- ===== src/Vm/Tracked.antt =====
-- hv/src/vmm/vm_manager.c and hv/src/memory_management/vmm_vm_manager.c: the pages that a machine
-- tracks, in a linked list of runs of pages whose nodes come from an arena and are never freed.
pub mod Runs
pub mod Track
pub mod Untrack
pub mod Held
use rkhv.Base.{
  ℕ, ◌+◌, ◌-◌, ◌*◌, ◌%◌, ◌/◌, ◌^◌, bit_and, Bool, true, false, ◌&&◌, ◌||◌, not, Option, none, some,
  List, [], ◌∷◌, leb, ◌==◌, nonzero, if◌then◌else◌,
}
use rkhv.Base.Result.{Result, ok, ◌>>=◌}
use rkhv.Memory.{page_size, v2p_identity_map, p2v_identity_map}
use rkhv.Mm.Arena.{Ptr, Arenas, arena_allocate}

-- vm_page_type_t
pub data PageType : Type 0 where
  ept guest_physical : PageType

-- vm_page_list_t, whose `next` is the rest of the list. `pages` has 56 bits.
pub record PageList : Type 0 where
  pub physical_address : ℕ
  pub pages : ℕ
  pub page_type : PageType
  pub reserved_pool : Bool

abbrev pub sizeof_page_list : ℕ
sizeof_page_list = 24

abbrev pub same_type : PageType → PageType → Bool
same_type ept ept = true
same_type guest_physical guest_physical = true
same_type ept guest_physical = false
same_type guest_physical ept = false

abbrev pub same_pool : Bool → Bool → Bool
same_pool true b = b
same_pool false b = not b

-- The list of a machine, and the arena that its nodes come from.
pub record Tracker : Type 0 where
  pub tracked_pages : List PageList
  pub vm_manager_arena : Ptr
  pub arenas : Arenas

-- first_page + ((pages - 1) * PAGE_SIZE), in 64 bits.
unfoldable pub last_page : PageList → ℕ
last_page n = (n.physical_address + (n.pages + 2 ^ 64 - 1) * page_size) % 2 ^ 64

unfoldable pub in_run : ℕ → PageList → Bool
unfolding last_page
in_run page n = leb n.physical_address page && leb page (last_page n)

unfoldable pub matches : PageType → Bool → PageList → Bool
matches page_type reserved_pool n =
    same_type n.page_type page_type && same_pool n.reserved_pool reserved_pool

-- One node of the loop of vm_manager_track_page: `none` goes on to the next node.
unfoldable pub track_in_node : ℕ → PageType → Bool → PageList → Option PageList
unfolding in_run matches last_page
track_in_node physical_address page_type reserved_pool n =
    if n.pages == 0
    then none
    else if not (matches page_type reserved_pool n)
    then none
    else if in_run physical_address n
    then some n
    else if (physical_address + page_size) % 2 ^ 64 == n.physical_address
    then some (record n { physical_address = physical_address; pages = (n.pages + 1) % 2 ^ 56 })
    else if (physical_address + 2 ^ 64 - page_size) % 2 ^ 64 == last_page n
    then some (record n { pages = (n.pages + 1) % 2 ^ 56 })
    else none

-- The loop: `none` when it falls through.
unfoldable pub track_in_lists : ℕ → PageType → Bool → List PageList → Option (List PageList)
track_in_lists physical_address page_type reserved_pool [] = none
track_in_lists physical_address page_type reserved_pool (n ∷ ns) =
    elim (track_in_node physical_address page_type reserved_pool n) [
      | some n' ↦ some (n' ∷ ns)
      | none ↦ elim (track_in_lists physical_address page_type reserved_pool ns) [
        | some ns' ↦ some (n ∷ ns')
        | none ↦ none
      ]
    ]

-- The first node without pages, `new_list` of the source, overwritten.
unfoldable pub reuse_empty : PageList → List PageList → Option (List PageList)
reuse_empty new [] = none
reuse_empty new (n ∷ ns) =
    if n.pages == 0
    then some (new ∷ ns)
    else elim (reuse_empty new ns) [ some ns' ↦ some (n ∷ ns') | none ↦ none ]

unfoldable pub vm_manager_track_page : ℕ → PageType → Bool → Tracker → Result Tracker
vm_manager_track_page page_address page_type pool t =
    let new : PageList = record {
      physical_address = page_address;
      pages = 1;
      page_type = page_type;
      reserved_pool = pool;
    } in
    elim (track_in_lists page_address page_type pool t.tracked_pages) [
      | some l ↦ ok (record t { tracked_pages = l })
      | none ↦ elim (reuse_empty new t.tracked_pages) [
        | some l ↦ ok (record t { tracked_pages = l })
        | none ↦ arena_allocate t.arenas t.vm_manager_arena sizeof_page_list >>= λ r.
            ok (record t { tracked_pages = new ∷ t.tracked_pages; arenas = r.1 })
      ]
    ]

-- `none` is `false`.
unfoldable pub untrack_in_lists : PageType → List PageList → Option (ℕ × List PageList)
unfolding last_page matches
untrack_in_lists page_type [] = none
untrack_in_lists page_type (n ∷ ns) =
    if not (matches page_type true n) || n.pages == 0
    then elim (untrack_in_lists page_type ns) [ some (p, ns') ↦ some (p, n ∷ ns') | none ↦ none ]
    else some (last_page n, record n { pages = n.pages - 1 } ∷ ns)

unfoldable pub vm_manager_untrack_page_from_reserved_pool :
    PageType → Tracker → Option (ℕ × Tracker)
vm_manager_untrack_page_from_reserved_pool page_type t =
    elim (untrack_in_lists page_type t.tracked_pages) [
      | some (p, l) ↦ some (p, record t { tracked_pages = l })
      | none ↦ none
    ]

unfoldable pub vm_manager_track_ept_page : Ptr → Tracker → Result Tracker
vm_manager_track_ept_page ept_page t = vm_manager_track_page (v2p_identity_map ept_page) ept false t

unfoldable pub vm_manager_untrack_ept_page_from_reserved_pool : Tracker → Option (Ptr × Tracker)
vm_manager_untrack_ept_page_from_reserved_pool t =
    elim (vm_manager_untrack_page_from_reserved_pool ept t) [
      | some (p, t') ↦ some (p2v_identity_map p, t')
      | none ↦ none
    ]

abbrev pub vm_t_flag_vmcs_initialized : ℕ
vm_t_flag_vmcs_initialized = 1

-- The fields of `vm_t` that the search for used pages reads.
pub record VmPages : Type 0 where
  pub flags : ℕ
  pub vmcs_region : ℕ
  pub tracked_pages : List PageList

unfoldable pub in_runs : ℕ → List PageList → Bool
in_runs page [] = false
in_runs page (n ∷ ns) = in_run page n || in_runs page ns

unfoldable pub mm_page_used_by_vm_manager : ℕ → List VmPages → Bool
unfolding in_runs
mm_page_used_by_vm_manager page [] = false
mm_page_used_by_vm_manager page (v ∷ vs) =
    (nonzero (bit_and v.flags vm_t_flag_vmcs_initialized) && v.vmcs_region == page)
    || (in_runs page v.tracked_pages || mm_page_used_by_vm_manager page vs)

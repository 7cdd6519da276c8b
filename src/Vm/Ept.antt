-- ===== src/Vm/Ept.antt =====
-- hv/src/vmm/vmx_ept.c: the extended page tables of a machine, in physical memory. A pointer to
-- a table is the physical address behind the identity map. A PANIC ends the run.
pub mod Bits
pub mod Tree
pub mod Leaf
pub mod Pages
pub mod Map
pub mod Translate
pub mod Root
pub mod MapPage
pub mod Same
use rkhv.Base.{
  ℕ, zero, suc, ◌+◌, ◌-◌, ◌*◌, ◌/◌, ◌%◌, ◌^◌, bit_and, bit_or, Bool, true, false, ◌&&◌, Option,
  none, some, nonzero, if◌then◌else◌,
}
use rkhv.Base.Result.{Result, ok, panic, ept_remap, ept_already_initialized, ◌>>=◌}
use rkhv.Memory.{Memory, entry, set_entry, clear_page}
use rkhv.Paging.{
  page_table_entries, linear_address_d_mask, linear_address_table_mask, linear_address_offset_mask,
  linear_address_get_pml4, linear_address_get_directory_ptr, linear_address_get_directory,
  linear_address_get_table, linear_address_get_offset,
}

abbrev pub ept_pte_read : ℕ
ept_pte_read = 0x0000000000000001

abbrev pub ept_pte_write : ℕ
ept_pte_write = 0x0000000000000002

abbrev pub ept_pte_execute : ℕ
ept_pte_execute = 0x0000000000000004

abbrev pub ept_pde_page_size : ℕ
ept_pde_page_size = 0x0000000000000080

abbrev pub ept_pte_physical_address_page : ℕ
ept_pte_physical_address_page = 0x000ffffffffff000

abbrev pub ept_pde_physical_address_page : ℕ
ept_pde_physical_address_page = 0x000fffffffe00000

abbrev pub ept_pdpte_physical_address_page : ℕ
ept_pdpte_physical_address_page = 0x000fffffc0000000

abbrev pub vm_t_flag_ept_pml4_initialized : ℕ
vm_t_flag_ept_pml4_initialized = 2

-- What the tables are taken from: the machine's reserved pool and list of tracked pages, and
-- the page allocator, with a state `R` that holds both.
pub record TablePages (R : Type 0) : Type 0 where
  -- vm_manager_untrack_ept_page_from_reserved_pool
  pub untrack : R → Option (ℕ × R)
  -- mm_get_free_page
  pub get_free_page : R → Result (ℕ × R)
  -- vm_manager_track_ept_page
  pub track : ℕ → R → Result R

-- The fields of `vm_t` that the EPT code reads and writes, beside the memory and the rest.
pub record State (R : Type 0) : Type 0 where
  pub memory : Memory
  pub flags : ℕ
  pub eptp : ℕ
  pub rest : R

-- READ | WRITE | EXECUTE | (page & PHYSICAL_ADDRESS)
unfoldable pub table_entry : ℕ → ℕ
table_entry page =
    bit_or (bit_or (bit_or ept_pte_read ept_pte_write) ept_pte_execute)
      (bit_and page ept_pte_physical_address_page)

unfoldable pub is_read : ℕ → Bool
is_read e = nonzero (bit_and e ept_pte_read)

unfoldable pub is_large : ℕ → Bool
is_large e = nonzero (bit_and e ept_pde_page_size)

unfoldable pub frame : ℕ → ℕ
frame e = bit_and e ept_pte_physical_address_page

-- READ | WRITE | EXECUTE | PAGE_SIZE | ((i << 30) & PHYSICAL_ADDRESS_PAGE)
unfoldable pub identity_entry : ℕ → ℕ
identity_entry i =
    bit_or (bit_or (bit_or (bit_or ept_pte_read ept_pte_write) ept_pte_execute) ept_pde_page_size)
      (bit_and (i * 2 ^ 30 % 2 ^ 64) ept_pdpte_physical_address_page)

-- `rounds` turns of the loop that fills the PDPT, from entry `i` on.
unfoldable pub fill_identity : ℕ → ℕ → ℕ → Memory → Memory
unfolding identity_entry
fill_identity ept_pdpt zero i m = m
fill_identity ept_pdpt (suc rounds) i m =
    fill_identity ept_pdpt rounds (i + 1) (set_entry m ept_pdpt i (identity_entry i))

module _ {R : Type 0} (pages : TablePages R) where
  open pages use {untrack, get_free_page, track}

  unfoldable pub vmx_get_free_ept_page : State R → Result (ℕ × State R)
  vmx_get_free_ept_page s = do
    (page, r) ← get_free_page s.rest
    ok (page, record s { memory = clear_page s.memory page; rest = r })

  -- A reserved page, or else a free one.
  unfoldable pub take_table : State R → Result (ℕ × State R)
  unfolding vmx_get_free_ept_page
  take_table s = elim (untrack s.rest) [
    | some (page, r) ↦ ok (page, record s { rest = r })
    | none ↦ vmx_get_free_ept_page s
  ]

  unfoldable pub create_pml4 : State R → Result (ℕ × State R)
  create_pml4 s = do
    (pml4, t) ← take_table s
    r ← track pml4 t.rest
    ok (
      pml4,
      record t { eptp = pml4; flags = bit_or t.flags vm_t_flag_ept_pml4_initialized; rest = r },
    )

  -- The PML4, created on the first use.
  unfoldable pub get_pml4 : State R → Result (ℕ × State R)
  unfolding create_pml4
  get_pml4 s =
      if nonzero (bit_and s.flags vm_t_flag_ept_pml4_initialized)
      then ok (s.eptp, s)
      else create_pml4 s

  -- A new table, taken, tracked and linked at entry `i` of `table`.
  unfoldable pub link_table : ℕ → ℕ → State R → Result (ℕ × State R)
  unfolding table_entry
  link_table table i s = do
    (child, t) ← take_table s
    r ← track child t.rest
    ok (child, record t { memory = set_entry t.memory table i (table_entry child); rest = r })

  -- The table behind entry `i` of `table`, linked if there is none. A large page stands in the
  -- way, except in the PML4, where the code makes no such test.
  unfoldable pub next_table : Bool → ℕ → ℕ → State R → Result (ℕ × State R)
  unfolding link_table is_read is_large frame
  next_table has_large table i s =
      let e = entry s.memory table i in
      if is_read e
      then if has_large && is_large e then panic ept_remap else ok (frame e, s)
      else link_table table i s

  unfoldable pub map_in_table : ℕ → ℕ → ℕ → State R → Result (State R)
  unfolding is_read table_entry
  map_in_table table i host_physical_page s =
      if is_read (entry s.memory table i)
      then panic ept_remap
      else ok (record s { memory = set_entry s.memory table i (table_entry host_physical_page) })

  unfoldable pub vmx_ept_map_page : ℕ → ℕ → State R → Result (State R)
  vmx_ept_map_page guest_physical_page host_physical_page s = do
    (pml4, s1) ← get_pml4 s
    (pdpt, s2) ← next_table false pml4 (linear_address_get_pml4 guest_physical_page) s1
    (pd, s3) ← next_table true pdpt (linear_address_get_directory_ptr guest_physical_page) s2
    (pt, s4) ← next_table true pd (linear_address_get_directory guest_physical_page) s3
    map_in_table pt (linear_address_get_table guest_physical_page) host_physical_page s4

  -- vmx_ept_create_identity_mapping: one table of 1 GiB pages.
  unfoldable pub vmx_ept_create_identity_mapping : State R → Result (State R)
  unfolding fill_identity table_entry
  vmx_ept_create_identity_mapping s =
      if nonzero (bit_and s.flags vm_t_flag_ept_pml4_initialized)
      then panic ept_already_initialized
      else do
        (ept_pdpt, s1) ← take_table s
        r1 ← track ept_pdpt s1.rest
        let filled = fill_identity ept_pdpt page_table_entries 0 s1.memory
        (ept_pml4, s2) ← take_table (record s1 { memory = filled; rest = r1 })
        r2 ← track ept_pml4 s2.rest
        ok (record s2 {
          memory = set_entry s2.memory ept_pml4 0 (table_entry ept_pdpt);
          eptp = ept_pml4;
          flags = bit_or s2.flags vm_t_flag_ept_pml4_initialized;
          rest = r2;
        })

-- The walk, which changes nothing; `none` is `false`.
unfoldable pub vmx_ept_get_host_physical_address : Memory → ℕ → ℕ → ℕ → Option ℕ
vmx_ept_get_host_physical_address m flags eptp guest_physical_address =
    let pml4e = entry m eptp (linear_address_get_pml4 guest_physical_address) in
    let pdpte = entry m (frame pml4e) (linear_address_get_directory_ptr guest_physical_address) in
    let pde = entry m (frame pdpte) (linear_address_get_directory guest_physical_address) in
    let pte = entry m (frame pde) (linear_address_get_table guest_physical_address) in
    if nonzero (bit_and flags vm_t_flag_ept_pml4_initialized)
    then if is_read pml4e
      then if is_read pdpte
        then if is_large pdpte
          then some (
              bit_or (bit_and pdpte ept_pdpte_physical_address_page) (
                bit_and guest_physical_address (
                  bit_or (bit_or linear_address_d_mask linear_address_table_mask)
                    linear_address_offset_mask)))
          else if is_read pde
          then if is_large pde
            then some (
                bit_or (bit_and pde ept_pde_physical_address_page) (
                  bit_and guest_physical_address
                    (bit_or linear_address_table_mask linear_address_offset_mask)))
            else if is_read pte
            then some (bit_or (frame pte) (linear_address_get_offset guest_physical_address))
            else none
          else none
        else none
      else none
    else none

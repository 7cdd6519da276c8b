-- ===== src/Boot/Paging.antt =====
-- boot/src/paging.c: the page tables that the boot loader builds for the hypervisor. An EFI_STATUS
-- other than EFI_SUCCESS ends the boot, so nothing is kept of the state then.
pub mod Pool
use rkhv.Base.{
  ℕ, zero, suc, ◌+◌, ◌*◌, ◌/◌, ◌%◌, ◌^◌, bit_and, bit_or, Bool, true, false, ◌&&◌, not, Option,
  none, some, List, [], ◌∷◌, ◌++◌, leb, ◌==◌, nonzero, if◌then◌else◌, length,
}
use rkhv.Memory.{Memory, page_size, physical_memory_base, entry, set_entry, clear_page}
use rkhv.Mm.Chainload.{Region}
use rkhv.Paging.{
  page_table_entries, pte_present, pte_read_write, pde_page_size, pte_physical_address_page,
  pde_physical_address_page, pte_execute_disable, linear_address_get_pml4,
  linear_address_get_directory_ptr, linear_address_get_directory, linear_address_get_table,
}

-- The errors of this file, and that of a call of the firmware.
pub data Status : Type 0 where
  unsupported out_of_resources buffer_too_small firmware_error : Status

pub data Efi (A : Type 0) : Type 0 where
  success : A → Efi A
  error : Status → Efi A

-- RETURN_EFI
infixl 5 ◌>>=◌
abbrev pub ◌>>=◌ : {A B : Type 0} → Efi A → (A → Efi B) → Efi B
error e >>= f = error e
success a >>= f = f a

pub data Permission : Type 0 where
  paging_rx paging_ro paging_rw : Permission

abbrev pub permission_mask : Permission → ℕ
permission_mask paging_rx = 0
permission_mask paging_ro = pte_execute_disable
permission_mask paging_rw = bit_or pte_execute_disable pte_read_write

-- paging_check_for_supported_level, on the values of the registers.
unfoldable pub paging_check_for_supported_level : ℕ → ℕ → ℕ → Bool
paging_check_for_supported_level cr0 cr4 ia32_efer =
    nonzero (bit_and cr0 0xffffffff80000000)
    && (nonzero (bit_and cr4 (2 ^ 5))
        && (not (nonzero (bit_and cr4 (2 ^ 12))) && nonzero (bit_and ia32_efer (2 ^ 8))))

-- Memory, paging_page_table_pool_t with its capacity, and what AllocatePages keeps.
pub record Boot (R : Type 0) : Type 0 where
  pub memory : Memory
  pub pool : List Region
  pub capacity : ℕ
  pub firmware : R

-- The loop of the region collapser; `none` is a run that touches no region.
unfoldable pub collapse : ℕ → ℕ → List Region → Option (List Region)
collapse address count [] = none
collapse address count (iter ∷ rest) =
    if (address + page_size * count) % 2 ^ 64 == iter.physical_address
    then some (record { physical_address = address; pages = (iter.pages + count) % 2 ^ 64 } ∷ rest)
    else if address == (iter.physical_address + page_size * iter.pages) % 2 ^ 64
    then some (record iter { pages = (iter.pages + count) % 2 ^ 64 } ∷ rest)
    else elim (collapse address count rest) [ some r ↦ some (iter ∷ r) | none ↦ none ]

unfoldable pub add_to_pool : ℕ → ℕ → ℕ → List Region → Efi (List Region)
unfolding collapse
add_to_pool address count capacity pool = elim (collapse address count pool) [
  | some p ↦ success p
  | none ↦
      if leb capacity (length pool)
      then error buffer_too_small
      else success (pool ++ record { physical_address = address; pages = count } ∷ [])
]

-- memset of `count` pages
unfoldable pub clear_pages : ℕ → ℕ → Memory → Memory
clear_pages address zero m = m
clear_pages address (suc count) m = clear_pages (address + page_size) count (clear_page m address)

module _ {R : Type 0} (allocate_pages : ℕ → R → Efi (ℕ × R)) where
  unfoldable pub paging_allocate_page : ℕ → Boot R → Efi (ℕ × Boot R)
  unfolding add_to_pool clear_pages
  paging_allocate_page count s = allocate_pages count s.firmware >>= λ f.
      add_to_pool f.0 count s.capacity s.pool >>= λ p.
      success (f.0, record s { memory = clear_pages f.0 count s.memory; pool = p; firmware = f.1 })

  unfoldable pub paging_allocate_pml4 : Boot R → Efi (ℕ × Boot R)
  unfolding paging_allocate_page
  paging_allocate_pml4 s = paging_allocate_page 1 s

  -- The table behind an entry, allocated if there is none. The PML4 has no large pages.
  unfoldable pub next_table : Bool → ℕ → ℕ → Boot R → Efi (ℕ × Boot R)
  unfolding paging_allocate_page
  next_table has_large table i s =
      let e = entry s.memory table i in
      if nonzero (bit_and e pte_present)
      then if has_large && nonzero (bit_and e pde_page_size)
        then error unsupported
        else success (bit_and e pte_physical_address_page, s)
      else paging_allocate_page 1 s >>= λ f. success (
        f.0,
        record (f.1) {
          memory =
              set_entry (f.1).memory table i (
                bit_or (bit_or pte_present pte_read_write) (bit_and f.0 pte_physical_address_page));
        },
      )

  unfoldable pub paging_map_page : ℕ → ℕ → ℕ → Permission → Boot R → Efi (Boot R)
  unfolding next_table
  paging_map_page pml4 physical_address virtual_address permission s =
      next_table false pml4 (linear_address_get_pml4 virtual_address) s >>= λ a.
      next_table true a.0 (linear_address_get_directory_ptr virtual_address) a.1 >>= λ b.
      next_table true b.0 (linear_address_get_directory virtual_address) b.1 >>= λ c.
      let i = linear_address_get_table virtual_address in
      if nonzero (bit_and (entry (c.1).memory c.0 i) pte_present)
      then error out_of_resources
      else success (record (c.1) {
        memory = set_entry (c.1).memory c.0 i (
            bit_or (bit_or pte_present (bit_and physical_address pte_physical_address_page))
              (permission_mask permission));
      })

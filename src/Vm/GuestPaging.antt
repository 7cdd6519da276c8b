-- ===== src/Vm/GuestPaging.antt =====
-- hv/src/vmm/vm_guest_paging.c: walking a guest's page tables through its EPT.
pub mod Vmexit
pub mod Setup
use rkhv.Base.{
  ℕ, zero, suc, ◌+◌, ◌-◌, ◌*◌, ◌/◌, ◌%◌, ◌^◌, bit_and, bit_or, Bool, true, false, ◌||◌, ◌&&◌, not,
  Option, none, some, ◌==◌, nonzero, if◌then◌else◌,
}
use rkhv.Base.Result.{
  Result, ok, panic, no_guest_pages, guest_pages_used, guest_identity_ept_walk,
  unsupported_paging_mode, guest_walk_failed, ept_walk_failed, crosses_page, ◌>>=◌,
}
use rkhv.Memory.{Memory, page_size, entry, set_entry, clear_page, p2v_identity_map}
use rkhv.Paging.{
  page_mask, page_table_entries, pte_present, pte_read_write, pde_page_size,
  pte_physical_address_page, pde_physical_address_page, pdpte_physical_address_page,
  linear_address_d_mask, linear_address_table_mask, linear_address_offset_mask,
  linear_address_get_pml4, linear_address_get_directory_ptr, linear_address_get_directory,
  linear_address_get_table, linear_address_get_offset,
}
use rkhv.Vm.Ept.{vmx_ept_get_host_physical_address}

-- What the walks use of `vm_t`: the EPT, and the pages for the setup.
pub record Guest : Type 0 where
  pub memory : Memory
  pub flags : ℕ
  pub eptp : ℕ
  pub guest_physical_pages : ℕ
  pub guest_physical_pages_used_by_initial_setup : ℕ

-- EPT_GET_HOSTVA; a host pointer is the physical address behind the identity map.
unfoldable pub host_address : Guest → ℕ → Option ℕ
host_address g = vmx_ept_get_host_physical_address g.memory g.flags g.eptp

unfoldable pub is_present : ℕ → Bool
is_present e = nonzero (bit_and e pte_present)

unfoldable pub is_page : ℕ → Bool
is_page e = nonzero (bit_and e pde_page_size)

-- The entry of the guest's table at a guest physical address.
unfoldable pub guest_entry : Guest → ℕ → ℕ → Option ℕ
unfolding host_address
guest_entry g table i = elim (host_address g table) [
  | some p ↦ some (entry g.memory p i)
  | none ↦ none
]

unfoldable pub in_table : Guest → ℕ → ℕ → Option ℕ
unfolding guest_entry is_present
in_table g la pde =
    elim (guest_entry g (bit_and pde pte_physical_address_page) (linear_address_get_table la)) [
      | none ↦ none
      | some pte ↦
          if is_present pte
          then some (bit_or (bit_and pte pte_physical_address_page) (linear_address_get_offset la))
          else none
    ]

unfoldable pub in_directory : Guest → ℕ → ℕ → Option ℕ
unfolding guest_entry is_present is_page in_table
in_directory g la pdpte =
    elim (guest_entry g (bit_and pdpte pte_physical_address_page)
      (linear_address_get_directory la)) [
        | none ↦ none
        | some pde ↦
            if not (is_present pde)
            then none
            else if is_page pde
            then some (
                bit_or (bit_and pde pde_physical_address_page)
                  (bit_and la (bit_or linear_address_table_mask linear_address_offset_mask)))
            else in_table g la pde
      ]

unfoldable pub in_directory_ptr : Guest → ℕ → ℕ → Option ℕ
unfolding guest_entry is_present is_page in_directory
in_directory_ptr g la pml4e =
    elim (guest_entry g (bit_and pml4e pte_physical_address_page)
      (linear_address_get_directory_ptr la)) [
        | none ↦ none
        | some pdpte ↦
            if not (is_present pdpte)
            then none
            else if is_page pdpte
            then some (
                bit_or (bit_and pdpte pdpte_physical_address_page) (
                  bit_and la (
                    bit_or (bit_or linear_address_d_mask linear_address_table_mask)
                      linear_address_offset_mask)))
            else in_directory g la pdpte
      ]

-- `none` is `false`.
unfoldable pub vm_guest_paging_get_guest_physical_address : Guest → ℕ → ℕ → Option ℕ
unfolding guest_entry is_present in_directory_ptr
vm_guest_paging_get_guest_physical_address g guest_cr3 guest_linear_addr =
    elim (guest_entry g (bit_and guest_cr3 page_mask) (linear_address_get_pml4 guest_linear_addr)) [
      | none ↦ none
      | some pml4e ↦ if is_present pml4e then in_directory_ptr g guest_linear_addr pml4e else none
    ]

-- The registers of vmx_vmexit_state_t that decide the paging mode.
pub record Mode : Type 0 where
  pub cr0 : ℕ
  pub cr3 : ℕ
  pub cr4 : ℕ
  pub ia32_efer : ℕ

-- CR0_PG is `1 << 31` of a signed `int`, so the mask is extended by its sign.
unfoldable pub is_long_mode : Mode → Bool
is_long_mode s =
    nonzero (bit_and s.cr0 0xffffffff80000000)
    && (nonzero (bit_and s.cr4 (2 ^ 5))
        && (not (nonzero (bit_and s.cr4 (2 ^ 12))) && nonzero (bit_and s.ia32_efer (2 ^ 8))))

unfoldable pub vm_guest_paging_get_host_virtual_address_during_vmexit :
    Guest → Mode → ℕ → ℕ → Result ℕ
unfolding is_long_mode host_address vm_guest_paging_get_guest_physical_address
vm_guest_paging_get_host_virtual_address_during_vmexit g s guest_virtual_address guest_data_size =
    if not (is_long_mode s)
    then panic unsupported_paging_mode
    else elim (vm_guest_paging_get_guest_physical_address g s.cr3 guest_virtual_address) [
      | none ↦ panic guest_walk_failed
      | some guest_physical_address ↦ elim (host_address g guest_physical_address) [
        | none ↦ panic ept_walk_failed
        | some host_physical_address ↦
            let va = p2v_identity_map host_physical_address in
            let end = (va + (guest_data_size + 2 ^ 64 - 1)) % 2 ^ 64 in
            if bit_and va page_mask == bit_and end page_mask then ok va else panic crosses_page
      ]
    ]

-- ===== src/Vm/GuestPaging/Setup.antt =====
-- vm_guest_paging_setup_identity: the tables that a guest starts with, in its own last pages.
use rkhv.Base.{
  ℕ, zero, suc, ◌+◌, ◌-◌, ◌*◌, ◌%◌, ◌^◌, bit_and, bit_or, none, some, ◌==◌, if◌then◌else◌, nonzero,
}
use rkhv.Base.Result.{
  Result, ok, panic, no_guest_pages, guest_pages_used, guest_identity_ept_walk, ◌>>=◌,
}
use rkhv.Memory.{Memory, page_size, set_entry, clear_page}
use rkhv.Paging.{
  page_table_entries, pte_present, pte_read_write, pde_page_size, pte_physical_address_page,
  pde_physical_address_page, linear_address_get_pml4,
}
use rkhv.Vm.GuestPaging.{Guest, host_address}

-- EPT_GET_HOSTVA of the setup
unfoldable pub get_hostva : Guest → ℕ → Result ℕ
get_hostva g guestpa = elim (host_address g guestpa) [
  | some hostpa ↦ ok hostpa
  | none ↦ panic guest_identity_ept_walk
]

unfoldable pub table_entry : ℕ → ℕ
table_entry guestpa =
    bit_or (bit_or pte_present pte_read_write) (bit_and guestpa pte_physical_address_page)

-- The inner loop, `rounds` entries from `pd_index` on.
unfoldable pub fill_pd : ℕ → ℕ → ℕ → ℕ → Memory → Memory
fill_pd pd_host pdpt_index zero pd_index m = m
fill_pd pd_host pdpt_index (suc rounds) pd_index m =
    let page = (pdpt_index * page_table_entries + pd_index) * 2 ^ 21 % 2 ^ 64 in
    fill_pd pd_host pdpt_index rounds (pd_index + 1) (
      set_entry m pd_host pd_index (
        bit_or (bit_or (bit_or pte_present pte_read_write) pde_page_size)
          (bit_and page pde_physical_address_page)))

-- The outer loop.
unfoldable pub fill_pdpt : ℕ → ℕ → ℕ → ℕ → Guest → Result Guest
unfolding get_hostva fill_pd table_entry
fill_pdpt pdpt_guestpa pdpt_host zero pdpt_index g = ok g
fill_pdpt pdpt_guestpa pdpt_host (suc rounds) pdpt_index g =
    let pd_guestpa = (pdpt_guestpa + 2 ^ 64 - (pdpt_index + 1) * page_size) % 2 ^ 64 in
    let rest = fill_pdpt pdpt_guestpa pdpt_host rounds (pdpt_index + 1) in
    get_hostva g pd_guestpa >>= λ pd_host. rest (record g {
      memory =
          set_entry (fill_pd pd_host pdpt_index page_table_entries 0 g.memory) pdpt_host pdpt_index
            (table_entry pd_guestpa);
      guest_physical_pages_used_by_initial_setup = g.guest_physical_pages_used_by_initial_setup + 1;
    })

-- The guest physical address of the PML4.
unfoldable pub vm_guest_paging_setup_identity : Guest → Result (ℕ × Guest)
vm_guest_paging_setup_identity g =
    let pml4_guestpa = (g.guest_physical_pages - 1) * page_size % 2 ^ 64 in
    let pdpt_guestpa = (pml4_guestpa + 2 ^ 64 - page_size) % 2 ^ 64 in
    if g.guest_physical_pages == 0
    then panic no_guest_pages
    else if nonzero g.guest_physical_pages_used_by_initial_setup
    then panic guest_pages_used
    else (get_hostva g pml4_guestpa >>= λ pml4_host. get_hostva g pdpt_guestpa >>= λ pdpt_host.
        fill_pdpt pdpt_guestpa pdpt_host page_table_entries 0
          (record g { guest_physical_pages_used_by_initial_setup = 2 })
        >>= λ t. ok (
          pml4_guestpa,
          record t {
            memory =
                set_entry (clear_page t.memory pml4_host) pml4_host (linear_address_get_pml4 0)
                  (table_entry pdpt_guestpa);
          },
        ))

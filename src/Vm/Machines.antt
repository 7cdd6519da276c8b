-- ===== src/Vm/Machines.antt =====
-- hv/src/vmm/vm_manager.c: the devices of a machine, and the tables that its memory needs.
use rkhv.Base.{ℕ, ◌+◌, ◌/◌, ◌%◌, ◌≤◌, ◌*◌, ◌<◌, arith, ◌==◌, if◌then◌else◌}
use rkhv.Base.Result.{Result, ok, panic, device_already_registered, vm_unsynced}
use rkhv.Mm.Arena.{Ptr, null}
use rkhv.Paging.{page_table_entries}

-- The `next` of every device, and `vm->devices`.
pub record Devices : Type 0 where
  pub next : Ptr → Ptr
  pub devices : Ptr

unfoldable pub vm_manager_register_device : Ptr → Devices → Result Devices
vm_manager_register_device device s =
    if s.next device == null
    then ok (record { next = λ p. if p == device then s.devices else s.next p; devices = device })
    else panic device_already_registered

-- vm_manager_get_current_vm: vm_manager_current_vm, the `vmcs_region` of each machine, and the
-- pointer that VMPTRST gives.
unfoldable pub vm_manager_get_current_vm : Ptr → (Ptr → ℕ) → ℕ → Result Ptr
vm_manager_get_current_vm current vmcs_region curr_vmcs_region =
    if current == null
    then panic vm_unsynced
    else if curr_vmcs_region == vmcs_region current
    then ok current
    else panic vm_unsynced

-- CEIL_DIV
unfoldable pub ceil_div : ℕ → ℕ → ℕ
ceil_div a b = a / b + (if a % b == 0 then 0 else 1)

-- The pages that vm_manager_allocate_guest_physical_memory reserves.
unfoldable pub ept_pages : ℕ → ℕ
unfolding ceil_div
ept_pages guest_physical_pages =
    let ept_amount_pt = ceil_div guest_physical_pages page_table_entries in
    let ept_amount_pd = ceil_div ept_amount_pt page_table_entries in
    let ept_amount_pdpt = ceil_div ept_amount_pd page_table_entries in
    let ept_amount_pml4 = ceil_div ept_amount_pdpt page_table_entries in
    ept_amount_pt + ept_amount_pd + ept_amount_pdpt + ept_amount_pml4

-- Each level has the least number of tables whose entries reach every table or page below.
ceil_div-least :
    (a : ℕ)
    → (a ≤ ceil_div a page_table_entries * page_table_entries)
      × (ceil_div a page_table_entries * page_table_entries < a + page_table_entries)
unfolding ceil_div
ceil_div-least a = (ground arith, ground arith)

-- ===== src/Mm/VmxPages.antt =====
-- hv/src/memory_management/vmm_vmx_pages.c: the pages that VMX itself needs, and
-- mm_page_is_free of memory_management.c, which asks all the users of pages.
pub mod Cached
use rkhv.Base.{
  ℕ, ◌+◌, ◌-◌, ◌*◌, ◌/◌, ◌%◌, ◌^◌, bit_and, Bool, true, false, ◌&&◌, ◌||◌, not, Option, none, some,
  List, ltb, leb, ◌==◌, if◌then◌else◌,
}
use rkhv.Base.Result.{Result, ok, ◌>>=◌}
use rkhv.Memory.{page_size}
use rkhv.Mm.Arena.{Arenas, mm_page_used_by_arena}
use rkhv.Mm.Chainload.{ChainloadPage, mm_page_used_by_chainload}
use rkhv.Vm.Msr.{Bytes, vmx_msr_init_bitmaps}
use rkhv.Vm.Tracked.{VmPages, mm_page_used_by_vm_manager}

-- The static variables, and the bytes of physical memory.
pub record VmxPages : Type 0 where
  pub vmxon_region_valid : Bool
  pub vmxon_region : ℕ
  pub msr_bitmaps_page_valid : Bool
  pub msr_bitmaps_page : ℕ
  pub memory : Bytes

unfoldable pub mm_page_used_by_vmx : ℕ → VmxPages → Bool
mm_page_used_by_vmx page s =
    (s.vmxon_region_valid && page == s.vmxon_region)
    || (s.msr_bitmaps_page_valid && page == s.msr_bitmaps_page)

-- A store of a uint32_t.
unfoldable pub store32 : ℕ → ℕ → Bytes → Bytes
store32 address value m a =
    if leb address a && ltb a (address + 4) then value / 256 ^ (a - address) % 256 else m a

-- What is done to one page, seen from its start.
unfoldable pub on_page : ℕ → (Bytes → Bytes) → Bytes → Bytes
on_page page f m a =
    if leb page a && ltb a (page + page_size) then f (λ i. m (page + i)) (a - page) else m a

abbrev pub ia32_vmx_basic : ℕ
ia32_vmx_basic = 0x480

unfoldable pub vmx_get_vmcs_revision_identifier : (ℕ → ℕ) → ℕ
vmx_get_vmcs_revision_identifier rdmsr = bit_and (rdmsr ia32_vmx_basic) 0x7fffffff

-- The page allocator with its state, and the processor's MSRs.
module _ {R : Type 0} (mm_get_free_page : R → Result (ℕ × R)) (rdmsr : ℕ → ℕ) where
  unfoldable pub vmx_get_vmxon_region : VmxPages → R → Result (ℕ × VmxPages × R)
  unfolding store32 vmx_get_vmcs_revision_identifier
  vmx_get_vmxon_region s r =
      if s.vmxon_region_valid
      then ok (s.vmxon_region, s, r)
      else mm_get_free_page r >>= λ f. ok (
        f.0,
        record s {
          vmxon_region_valid = true;
          vmxon_region = f.0;
          memory = store32 f.0 (vmx_get_vmcs_revision_identifier rdmsr) s.memory;
        },
        f.1,
      )

  unfoldable pub vmx_get_msr_bitmaps_page : VmxPages → R → Result (ℕ × VmxPages × R)
  unfolding on_page
  vmx_get_msr_bitmaps_page s r =
      if s.msr_bitmaps_page_valid
      then ok (s.msr_bitmaps_page, s, r)
      else mm_get_free_page r >>= λ f. ok (
        f.0,
        record s {
          msr_bitmaps_page_valid = true;
          msr_bitmaps_page = f.0;
          memory = on_page f.0 vmx_msr_init_bitmaps s.memory;
        },
        f.1,
      )

  unfoldable pub vmx_get_free_vmcs_region : VmxPages → R → Result (ℕ × VmxPages × R)
  unfolding store32 vmx_get_vmcs_revision_identifier
  vmx_get_free_vmcs_region s r = mm_get_free_page r >>= λ f. ok (
    f.0,
    record s { memory = store32 f.0 (vmx_get_vmcs_revision_identifier rdmsr) s.memory },
    f.1,
  )

-- Everything that mm_page_is_free asks, with fuel for the list of arenas; `none` is a list that
-- is longer than the fuel.
pub record Users : Type 0 where
  pub chainload_page : ChainloadPage
  pub arenas : Arenas
  pub vmx : VmxPages
  pub machines : List VmPages

unfoldable pub mm_page_is_free : Users → ℕ → ℕ → Option Bool
unfolding mm_page_used_by_vmx
mm_page_is_free u fuel page =
    if mm_page_used_by_chainload u.chainload_page page
    then some false
    else elim (mm_page_used_by_arena u.arenas fuel page) [
      | none ↦ none
      | some used ↦
          if used
          then some false
          else if mm_page_used_by_vmx page u.vmx
          then some false
          else if mm_page_used_by_vm_manager page u.machines
          then some false
          else some true
    ]

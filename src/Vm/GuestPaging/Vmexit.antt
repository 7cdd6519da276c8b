-- ===== src/Vm/GuestPaging/Vmexit.antt =====
-- What an emulated access may rely on.
use rkhv.Base.{
  ℕ, Bool, not, ◌&&◌, sym, ◌∙◌, ◌/◌, ◌+◌, ◌-◌, ◌%◌, ◌^◌, ◌<◌, ◌≤◌, ◌≡◌, refl, bit_and, true, false,
  none, some, ◌==◌, leb, arith, Bool-cases, Option-cases, inl, inr, ◌⊎◌,
}
use rkhv.Base.Bits.{bit_and_field}
use rkhv.Base.Result.{
  Result, ok, panic, unsupported_paging_mode, guest_walk_failed, ept_walk_failed, crosses_page,
}
use rkhv.Memory.{page_size, p2v_identity_map}
use rkhv.Paging.{page_mask, page_mask_lem}
use rkhv.Vm.GuestPaging.{
  Guest, Mode, host_address, is_long_mode, vm_guest_paging_get_guest_physical_address,
  vm_guest_paging_get_host_virtual_address_during_vmexit,
}

-- Paging with four levels in long mode. CR0_PG is extended by its sign, so any of the upper bits of
-- CR0 counts as it.
abbrev pub has_four_levels : Mode → Bool
has_four_levels s =
    not (s.cr0 / 2 ^ 31 % 2 ^ 33 == 0)
    && (s.cr4 / 2 ^ 5 % 2 == 1 && (s.cr4 / 2 ^ 12 % 2 == 0 && s.ia32_efer / 2 ^ 8 % 2 == 1))

is_long_mode_lem : (s : Mode) → is_long_mode s ≡ has_four_levels s
unfolding is_long_mode
is_long_mode_lem s = ground (
  arith,
  bit_and_field 31 33 s.cr0,
  bit_and_field 5 1 s.cr4,
  bit_and_field 12 1 s.cr4,
  bit_and_field 8 1 s.ia32_efer,
)

-- An access of `size` bytes at `va` was found in the host page of the address behind the guest's
-- page tables and its EPT.
pub record IsResolved (g : Guest) (s : Mode) (address size va : ℕ) : Type 0 where
  pub four_levels : has_four_levels s ≡ true
  pub guest_physical : ℕ
  pub host_physical : ℕ
  pub walked : vm_guest_paging_get_guest_physical_address g s.cr3 address ≡ some guest_physical
  pub mapped : host_address g guest_physical ≡ some host_physical
  pub va_is : va ≡ p2v_identity_map host_physical
  pub in_page : va % page_size + size ≤ page_size

-- The four reasons for a PANIC, each when the tests before it have passed.
pub data Refused (g : Guest) (s : Mode) (address size : ℕ) : Result ℕ → Type 0 where
  mode : has_four_levels s ≡ false → Refused g s address size (panic unsupported_paging_mode)
  guest_walk :
      has_four_levels s ≡ true
      → vm_guest_paging_get_guest_physical_address g s.cr3 address ≡ none
      → Refused g s address size (panic guest_walk_failed)
  ept_walk :
      (gpa : ℕ)
      → has_four_levels s ≡ true
      → vm_guest_paging_get_guest_physical_address g s.cr3 address ≡ some gpa
      → host_address g gpa ≡ none
      → Refused g s address size (panic ept_walk_failed)
  crosses :
      (gpa hpa : ℕ)
      → has_four_levels s ≡ true
      → vm_guest_paging_get_guest_physical_address g s.cr3 address ≡ some gpa
      → host_address g gpa ≡ some hpa
      → page_size < p2v_identity_map hpa % page_size + size
      → Refused g s address size (panic crosses_page)

p2v-bound : (pa : ℕ) → p2v_identity_map pa < 2 ^ 64
unfolding p2v_identity_map
p2v-bound pa = omega arith

-- The comparison of the two masked addresses is the bound of the page.
same_frame :
    (va size : ℕ)
    → va < 2 ^ 64
    → 0 < size
    → size ≤ page_size
    → (bit_and va page_mask == bit_and ((va + (size + 2 ^ 64 - 1)) % 2 ^ 64) page_mask)
      ≡ leb (va % page_size + size) page_size
same_frame va size hv lo hi =
    rw (page_mask_lem va, page_mask_lem ((va + (size + 2 ^ 64 - 1)) % 2 ^ 64)) (ground arith)

-- Resolving an access of 1 to 4096 bytes during a VM exit gives the virtual address of its first
-- byte only when the guest is in long mode with four levels, both walks succeed and all its bytes
-- lie in the page of the first; otherwise it stops with the PANIC of the first test that fails.
pub get_host_virtual_address-Outcome :
    (g : Guest) (s : Mode) (address size : ℕ)
    → 0 < size
    → size ≤ page_size
    → let r = vm_guest_paging_get_host_virtual_address_during_vmexit g s address size in
      ((va : ℕ) × (r ≡ ok va) × IsResolved g s address size va) ⊎ Refused g s address size r
unfolding vm_guest_paging_get_host_virtual_address_during_vmexit
get_host_virtual_address-Outcome g s address size lo hi = elim (Bool-cases (is_long_mode s)) [
  | inr m ↦ inr (rw m (mode (sym (is_long_mode_lem s) ∙ m)))
  | inl m ↦ elim (Option-cases (vm_guest_paging_get_guest_physical_address g s.cr3 address)) [
    | inl w ↦ inr (rw (m, w) (guest_walk (sym (is_long_mode_lem s) ∙ m) w))
    | inr (gpa, w) ↦ elim (Option-cases (host_address g gpa)) [
      | inl e ↦ inr (rw (m, w, e) (ept_walk gpa (sym (is_long_mode_lem s) ∙ m) w e))
      | inr (hpa, e) ↦
          let va = p2v_identity_map hpa in
          let f = same_frame va size (p2v-bound hpa) lo hi in
          elim (Bool-cases (leb (va % page_size + size) page_size)) [
            | inl p ↦ inl (
              va,
              rw (m, w, e, f, p) refl,
              record {
                four_levels = sym (is_long_mode_lem s) ∙ m;
                guest_physical = gpa;
                host_physical = hpa;
                walked = w;
                mapped = e;
                va_is = refl;
                in_page = ground (arith, p);
              },
            )
            | inr p ↦ inr (
                rw (m, w, e, f, p)
                  (crosses gpa hpa (sym (is_long_mode_lem s) ∙ m) w e (ground (arith, p))))
          ]
    ]
  ]
]

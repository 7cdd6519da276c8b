-- ===== src/Vm/Ept/Translate.antt =====
-- vmx_ept_get_host_physical_address, hv/src/vmm/vmx_ept.c, and the four indices of an address.
use mathlib.Core.Option
use rkhv.Base.{
  ℕ, ◌+◌, ◌/◌, ◌%◌, ◌^◌, ◌≡◌, bit_and, bit_or, Bool, true, List, [], ◌∷◌, arith, ◌==◌, Bool-cases,
  inl, inr, nonzero,
}
use rkhv.Base.Bits.{bit_or_fields, bit_or_lowest, bit_and_field}
use rkhv.Memory.{Memory, entry}
use rkhv.Paging.{
  linear_address_get_pml4, linear_address_get_directory_ptr, linear_address_get_directory,
  linear_address_get_table, linear_address_get_offset, get_pml4_lem, get_directory_ptr_lem,
  get_directory_lem, get_table_lem, get_offset_lem,
}
use rkhv.Vm.Ept.{is_read, frame, vmx_ept_get_host_physical_address, vm_t_flag_ept_pml4_initialized}
use rkhv.Vm.Ept.Bits.{frame_lem}
use rkhv.Vm.Ept.Tree.{walk, IsPath, Role, IsTree}

abbrev pub is_initialized : ℕ → Bool
is_initialized flags = nonzero (bit_and flags vm_t_flag_ept_pml4_initialized)

pub is_initialized-set :
    (flags : ℕ) → is_initialized (bit_or flags vm_t_flag_ept_pml4_initialized) ≡ true
is_initialized-set flags =
    ground (
      arith,
      bit_and_field 1 1 (bit_or flags 2),
      bit_or_lowest flags 2,
      bit_or_lowest (flags / 2) 1,
    )

abbrev pub path_of : ℕ → List ℕ
path_of a =
    linear_address_get_pml4 a
    ∷ linear_address_get_directory_ptr a
    ∷ linear_address_get_directory a
    ∷ linear_address_get_table a
    ∷ []

pub path_of-IsPath : (a : ℕ) → IsPath (path_of a)
path_of-IsPath a =
    omega (arith, get_pml4_lem a, get_directory_ptr_lem a, get_directory_lem a, get_table_lem a)

-- Addresses of one guest page, and those alone, share the path.
abbrev pub same_page : ℕ → ℕ → Bool
same_page a g = a / 4096 % 2 ^ 36 == g / 4096 % 2 ^ 36

pub path_of-same_page : (a g : ℕ) → same_page a g ≡ true → path_of a ≡ path_of g
path_of-same_page a g h = ground (
  arith,
  get_pml4_lem a,
  get_directory_ptr_lem a,
  get_directory_lem a,
  get_table_lem a,
  get_pml4_lem g,
  get_directory_ptr_lem g,
  get_directory_lem g,
  get_table_lem g,
)

pub same_page-path_of :
    (a g : ℕ)
    → linear_address_get_pml4 a ≡ linear_address_get_pml4 g
    → linear_address_get_directory_ptr a ≡ linear_address_get_directory_ptr g
    → linear_address_get_directory a ≡ linear_address_get_directory g
    → linear_address_get_table a ≡ linear_address_get_table g
    → same_page a g ≡ true
same_page-path_of a g h₄ h₃ h₂ h₁ = ground (
  arith,
  get_pml4_lem a,
  get_directory_ptr_lem a,
  get_directory_lem a,
  get_table_lem a,
  get_pml4_lem g,
  get_directory_ptr_lem g,
  get_directory_lem g,
  get_table_lem g,
)

frame-offset : (e a : ℕ) → bit_or (frame e) (linear_address_get_offset a) ≡ frame e + a % 4096
frame-offset e a = ground (
  arith,
  frame_lem e,
  get_offset_lem a,
  bit_or_fields 12 (e / 4096 % 2 ^ 40) (a % 4096) (omega arith),
)

pub translate-walk :
    (m : Memory) (flags root : ℕ) (role : Role) (a : ℕ)
    → IsTree m root role
    → is_initialized flags ≡ true
    → vmx_ept_get_host_physical_address m flags root a
      ≡ Option.map (λ p. p + a % 4096) (walk m root (path_of a))
unfolding vmx_ept_get_host_physical_address walk
translate-walk m flags root role a tree set =
    let p = path_of-IsPath a in
    let e₄ = entry m root (linear_address_get_pml4 a) in
    let e₃ = entry m (frame e₄) (linear_address_get_directory_ptr a) in
    let e₂ = entry m (frame e₃) (linear_address_get_directory a) in
    let e₁ = entry m (frame e₂) (linear_address_get_table a) in
    rw set (elim (Bool-cases (is_read e₄)) [
      | inl r₄ ↦
          let c₄ = tree.child root [] _ tree.at_root p.0 (omega arith) r₄ in
          rw r₄ (elim (Bool-cases (is_read e₃)) [
            | inl r₃ ↦
                let c₃ = tree.child (frame e₄) _ _ c₄.1 p.1.0 (omega arith) r₃ in
                rw (r₃, c₃.0)
                  (elim (Bool-cases (is_read e₂)) [
                    | inl r₂ ↦
                        let c₂ = tree.child (frame e₃) _ _ c₃.1 p.1.1.0 (omega arith) r₂ in
                        rw (r₂, c₂.0)
                          (elim (Bool-cases (is_read e₁)) [
                            | inl r₁ ↦ rw (r₁, frame-offset e₁ a)
                            | inr r₁ ↦ rw r₁
                          ])
                    | inr r₂ ↦ rw r₂
                  ])
            | inr r₃ ↦ rw r₃
          ])
      | inr r₄ ↦ rw r₄
    ])

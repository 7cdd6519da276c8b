-- ===== src/Paging.antt =====
-- The address fields and entry masks of common/include/rkhv/paging.h, which hv/src/vmm/vmx_ept.h
-- takes over for guest physical addresses and the EPT.
use rkhv.Base.{ℕ, ◌+◌, ◌*◌, ◌/◌, ◌%◌, ◌^◌, ◌<◌, ◌≡◌, bit_and, arith}
use rkhv.Base.Bits.{bit_and_low, bit_and_field}

abbrev pub page_table_entries : ℕ
page_table_entries = 0x1000 / 8

-- ~0xfff, converted to 64 bits
abbrev pub page_mask : ℕ
page_mask = 0xfffffffffffff000

abbrev pub linear_address_pml4_mask : ℕ
linear_address_pml4_mask = 0x0000ff8000000000

abbrev pub linear_address_dp_mask : ℕ
linear_address_dp_mask = 0x0000007fc0000000

abbrev pub linear_address_d_mask : ℕ
linear_address_d_mask = 0x000000003fe00000

abbrev pub linear_address_table_mask : ℕ
linear_address_table_mask = 0x00000000001ff000

abbrev pub linear_address_offset_mask : ℕ
linear_address_offset_mask = 0x0000000000000fff

unfoldable pub linear_address_get_pml4 : ℕ → ℕ
linear_address_get_pml4 x = bit_and x linear_address_pml4_mask / 2 ^ 39

unfoldable pub linear_address_get_directory_ptr : ℕ → ℕ
linear_address_get_directory_ptr x = bit_and x linear_address_dp_mask / 2 ^ 30

unfoldable pub linear_address_get_directory : ℕ → ℕ
linear_address_get_directory x = bit_and x linear_address_d_mask / 2 ^ 21

unfoldable pub linear_address_get_table : ℕ → ℕ
linear_address_get_table x = bit_and x linear_address_table_mask / 2 ^ 12

unfoldable pub linear_address_get_offset : ℕ → ℕ
linear_address_get_offset x = bit_and x linear_address_offset_mask / 2 ^ 0

abbrev pub pte_present : ℕ
pte_present = 0x0000000000000001

abbrev pub pte_read_write : ℕ
pte_read_write = 0x0000000000000002

abbrev pub pde_page_size : ℕ
pde_page_size = 0x0000000000000080

abbrev pub pte_physical_address_page : ℕ
pte_physical_address_page = 0x000ffffffffff000

abbrev pub pde_physical_address_page : ℕ
pde_physical_address_page = 0x000fffffffe00000

abbrev pub pdpte_physical_address_page : ℕ
pdpte_physical_address_page = 0x000fffffc0000000

abbrev pub pte_execute_disable : ℕ
pte_execute_disable = 0x8000000000000000

-- The fields as arithmetic.
pub get_pml4_lem : (x : ℕ) → linear_address_get_pml4 x ≡ x / 2 ^ 39 % 512
unfolding linear_address_get_pml4
get_pml4_lem x = omega (arith, bit_and_field 39 9 x)

pub get_directory_ptr_lem : (x : ℕ) → linear_address_get_directory_ptr x ≡ x / 2 ^ 30 % 512
unfolding linear_address_get_directory_ptr
get_directory_ptr_lem x = omega (arith, bit_and_field 30 9 x)

pub get_directory_lem : (x : ℕ) → linear_address_get_directory x ≡ x / 2 ^ 21 % 512
unfolding linear_address_get_directory
get_directory_lem x = omega (arith, bit_and_field 21 9 x)

pub get_table_lem : (x : ℕ) → linear_address_get_table x ≡ x / 2 ^ 12 % 512
unfolding linear_address_get_table
get_table_lem x = omega (arith, bit_and_field 12 9 x)

pub get_offset_lem : (x : ℕ) → linear_address_get_offset x ≡ x % 2 ^ 12
unfolding linear_address_get_offset
get_offset_lem x = omega (arith, bit_and_low 12 x)

pub page_frame_lem : (x : ℕ) → bit_and x pte_physical_address_page ≡ x / 4096 % 2 ^ 40 * 4096
page_frame_lem x = bit_and_field 12 40 x

pub page_mask_lem : (x : ℕ) → bit_and x page_mask ≡ x / 4096 % 2 ^ 52 * 4096
page_mask_lem x = bit_and_field 12 52 x

pub present_lem : (x : ℕ) → bit_and x pte_present ≡ x % 2
present_lem x = omega (arith, bit_and_low 1 x)

pub page_size_lem : (x : ℕ) → bit_and x pde_page_size ≡ x / 128 % 2 * 128
page_size_lem x = omega (arith, bit_and_field 7 1 x)

-- The five fields of a 48-bit address, put together again.
pub linear_address_fields :
    (x : ℕ)
    → x < 2 ^ 48
    → linear_address_get_pml4 x * 2 ^ 39
        + linear_address_get_directory_ptr x * 2 ^ 30
        + linear_address_get_directory x * 2 ^ 21
        + linear_address_get_table x * 2 ^ 12
        + linear_address_get_offset x
      ≡ x
linear_address_fields x h = omega (
  arith,
  get_pml4_lem x,
  get_directory_ptr_lem x,
  get_directory_lem x,
  get_table_lem x,
  get_offset_lem x,
)

-- ===== src/Vm/Ept/Bits.antt =====
-- The entries that the EPT code writes, read back by its own tests and masks.
use rkhv.Base.{ℕ, ◌+◌, ◌*◌, ◌/◌, ◌%◌, ◌^◌, ◌<◌, ◌≡◌, true, false, arith, if◌then◌else◌, ◌==◌}
use rkhv.Base.Bits.{bit_or_fields, bit_or_comm}
use rkhv.Memory.{IsPage}
use rkhv.Paging.{page_frame_lem, present_lem, page_size_lem}
use rkhv.Vm.Ept.{table_entry, is_read, is_large, frame}

pub frame_lem : (e : ℕ) → frame e ≡ e / 4096 % 2 ^ 40 * 4096
unfolding frame
frame_lem e = page_frame_lem e

pub is_read_lem : (e : ℕ) → is_read e ≡ (if e % 2 == 0 then false else true)
unfolding is_read
is_read_lem e = ground (arith, present_lem e)

pub is_large_lem : (e : ℕ) → is_large e ≡ (if e / 128 % 2 == 0 then false else true)
unfolding is_large
is_large_lem e = ground (arith, page_size_lem e)

-- An entry is the page's frame with the three permissions.
pub table_entry_lem : (page : ℕ) → table_entry page ≡ page / 4096 % 2 ^ 40 * 4096 + 7
unfolding table_entry
table_entry_lem page = ground (
  arith,
  page_frame_lem page,
  bit_or_comm 7 (page / 4096 % 2 ^ 40 * 4096),
  bit_or_fields 12 (page / 4096 % 2 ^ 40) 7 (omega arith),
)

pub table_entry-is_read : (page : ℕ) → is_read (table_entry page) ≡ true
table_entry-is_read page = ground (arith, is_read_lem (table_entry page), table_entry_lem page)

pub table_entry-is_large : (page : ℕ) → is_large (table_entry page) ≡ false
table_entry-is_large page = ground (arith, is_large_lem (table_entry page), table_entry_lem page)

pub frame-table_entry : (page : ℕ) → frame (table_entry page) ≡ frame page
frame-table_entry page =
    omega (arith, frame_lem (table_entry page), frame_lem page, table_entry_lem page)

pub frame_page : (page : ℕ) → IsPage page → page < 2 ^ 52 → frame page ≡ page
frame_page page p h = omega (arith, frame_lem page)

pub frame-IsPage : (e : ℕ) → IsPage (frame e)
frame-IsPage e = omega (arith, frame_lem e)

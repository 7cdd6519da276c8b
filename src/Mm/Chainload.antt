-- ===== src/Mm/Chainload.antt =====
-- The chainload page of common/include/rkhv/chainload.h and the functions of
-- hv/src/memory_management/memory_management.c that read it. The arrays are lists.
use rkhv.Base.{
  ℕ, zero, suc, ◌+◌, ◌-◌, ◌*◌, ◌/◌, ◌%◌, ◌^◌, ◌<◌, ◌≤◌, ◌≡◌, bit_and, Bool, true, false, ◌&&◌, ◌||◌,
  some, List, [], ◌∷◌, arith, ltb, leb, ◌==◌, if◌then◌else◌, get_elem?,
}
use rkhv.Memory.{page_size, p2v_identity_map}
use rkhv.Paging.{page_mask, page_mask_lem}

abbrev pub rkhv_max_efi_mmap_descriptors : ℕ
rkhv_max_efi_mmap_descriptors = 231

-- chainload_mmap_desc_t
pub record MmapDesc : Type 0 where
  pub physical_address : ℕ
  pub pages : ℕ
  pub usable : Bool

-- A run of pages: an entry of rkhv_sections, or a chainload_page_table_region_t.
pub record Region : Type 0 where
  pub physical_address : ℕ
  pub pages : ℕ

-- chainload_attachment_type_t, in its 8 bits
abbrev pub chainload_attachment_end : ℕ
chainload_attachment_end = 0

abbrev pub chainload_attachment_linux_bzimage : ℕ
chainload_attachment_linux_bzimage = 0x4c

pub record Attachment : Type 0 where
  pub physical_address : ℕ
  pub size : ℕ
  pub attachment_type : ℕ

pub record ChainloadPage : Type 0 where
  pub rkhv_sections : List Region
  pub own_address : ℕ
  pub attachments : List Attachment
  pub page_table_regions : List Region
  pub efi_mmap_usable : List MmapDesc

-- The loop over the attachments: the address and size, or NULL and 0.
unfoldable pub find_attachment : ℕ → List Attachment → ℕ × ℕ
find_attachment wanted [] = (0, 0)
find_attachment wanted (iter ∷ rest) =
    let next = find_attachment wanted rest in
    if iter.attachment_type == chainload_attachment_end
    then (0, 0)
    else if iter.attachment_type == wanted
    then if iter.size == 0 then (0, 0) else (p2v_identity_map iter.physical_address, iter.size)
    else next

unfoldable pub mm_get_attachment : ChainloadPage → ℕ → ℕ × ℕ
unfolding find_attachment
mm_get_attachment page wanted = find_attachment wanted page.attachments

-- first <= page && page <= first + (pages - 1) * PAGE_SIZE
abbrev pub within : ℕ → ℕ → ℕ → Bool
within page first pages =
    leb first page && leb page ((first + (pages + 2 ^ 64 - 1) % 2 ^ 64 * page_size) % 2 ^ 64)

unfoldable pub used_by_region : ℕ → List Region → Bool
used_by_region page [] = false
used_by_region page (r ∷ rest) =
    (ltb 0 r.pages && within page r.physical_address r.pages) || used_by_region page rest

unfoldable pub attachment_pages : ℕ → ℕ
attachment_pages size = size / page_size + (if size % page_size == 0 then 0 else 1)

unfoldable pub used_by_attachment : ℕ → List Attachment → Bool
unfolding attachment_pages
used_by_attachment page [] = false
used_by_attachment page (iter ∷ rest) =
    let next = used_by_attachment page rest in
    if iter.attachment_type == chainload_attachment_end
    then false
    else (ltb 0 iter.size && within page iter.physical_address (attachment_pages iter.size)) || next

unfoldable pub mm_page_used_by_chainload : ChainloadPage → ℕ → Bool
unfolding used_by_region used_by_attachment
mm_page_used_by_chainload c page_physical_address =
    let page = bit_and page_physical_address page_mask in
    page == c.own_address
    || (used_by_region page c.rkhv_sections
        || (used_by_attachment page c.attachments || used_by_region page c.page_table_regions))

-- mm_setup: the usable pages that it counts and logs.
unfoldable pub usable_pages : List MmapDesc → ℕ
usable_pages [] = 0
usable_pages (iter ∷ rest) =
    let more = usable_pages rest in
    if iter.pages == 0 then 0 else if iter.usable then iter.pages + more else more

-- A run of pages that the code can hold: aligned, and inside the address space.
abbrev IsRun : ℕ → ℕ → Type 0
IsRun first pages = (first % page_size ≡ 0) × (first + pages * page_size ≤ 2 ^ 64)

-- Every byte of a run lies on a page that `within` finds.
within_byte :
    (first pages byte : ℕ)
    → IsRun first pages
    → first ≤ byte
    → byte < first + pages * page_size
    → within (bit_and byte page_mask) first pages ≡ true
within_byte first pages byte run lo hi = ground (arith, page_mask_lem byte)

used_by_region-true :
    (rs : List Region) (i byte : ℕ) {r : Region}
    → get_elem? rs i ≡ some r
    → IsRun r.physical_address r.pages
    → r.physical_address ≤ byte
    → byte < r.physical_address + r.pages * page_size
    → used_by_region (bit_and byte page_mask) rs ≡ true
unfolding used_by_region
used_by_region-true [] i byte at run lo hi = cc
used_by_region-true (x ∷ rs) zero byte {r} at run lo hi =
    ground (arith, within_byte r.physical_address r.pages byte run lo hi)
used_by_region-true (x ∷ rs) (suc i) byte at run lo hi =
    ground (arith, used_by_region-true rs i byte at run lo hi)

-- No entry before the `i`th ends the list.
abbrev Before : List Attachment → ℕ → Type 0
Before [] i = Unit {0}
Before (x ∷ xs) zero = (x.attachment_type == chainload_attachment_end) ≡ false
Before (x ∷ xs) (suc i) = ((x.attachment_type == chainload_attachment_end) ≡ false) × Before xs i

-- A partial page at the end counts.
attachment_pages-le : (size : ℕ) → size ≤ attachment_pages size * page_size
unfolding attachment_pages
attachment_pages-le size = ground arith

used_by_attachment-true :
    (list : List Attachment) (i byte : ℕ) {a : Attachment}
    → get_elem? list i ≡ some a
    → Before list i
    → IsRun a.physical_address (attachment_pages a.size)
    → a.physical_address ≤ byte
    → byte < a.physical_address + a.size
    → used_by_attachment (bit_and byte page_mask) list ≡ true
unfolding used_by_attachment
used_by_attachment-true [] i byte at live run lo hi = cc
used_by_attachment-true (x ∷ list) zero byte {a} at live run lo hi =
    let e : x ≡ a = ground arith in
    let cover = attachment_pages-le a.size in
    let found =
      within_byte a.physical_address (attachment_pages a.size) byte run lo (omega arith) in
    ground (arith, found)
used_by_attachment-true (x ∷ list) (suc i) byte at live run lo hi =
    ground (arith, used_by_attachment-true list i byte at live.1 run lo hi)

-- The byte belongs to what the boot loader left in memory.
pub data Holds (c : ChainloadPage) (byte : ℕ) : Type 0 where
  own :
      c.own_address % page_size ≡ 0
      → c.own_address ≤ byte
      → byte < c.own_address + page_size
      → byte < 2 ^ 64
      → Holds c byte
  in_section :
      (i : ℕ) {r : Region}
      → get_elem? c.rkhv_sections i ≡ some r
      → IsRun r.physical_address r.pages
      → r.physical_address ≤ byte
      → byte < r.physical_address + r.pages * page_size
      → Holds c byte
  in_attachment :
      (i : ℕ) {a : Attachment}
      → get_elem? c.attachments i ≡ some a
      → Before c.attachments i
      → IsRun a.physical_address (attachment_pages a.size)
      → a.physical_address ≤ byte
      → byte < a.physical_address + a.size
      → Holds c byte
  in_page_table :
      (i : ℕ) {r : Region}
      → get_elem? c.page_table_regions i ≡ some r
      → IsRun r.physical_address r.pages
      → r.physical_address ≤ byte
      → byte < r.physical_address + r.pages * page_size
      → Holds c byte

-- Every byte of the chainload page, of a section, of an attachment that stands before the end
-- marker, and of a page table region lies on a page that mm_page_used_by_chainload reports used,
-- given that the run of pages it belongs to is aligned and inside the address space.
pub mm_page_used_by_chainload-Holds :
    (c : ChainloadPage) (byte : ℕ) → Holds c byte → mm_page_used_by_chainload c byte ≡ true
unfolding mm_page_used_by_chainload
mm_page_used_by_chainload-Holds c byte (own aligned lo hi fits) = ground (arith, page_mask_lem byte)
mm_page_used_by_chainload-Holds c byte (in_section i at run lo hi) =
    ground (arith, used_by_region-true c.rkhv_sections i byte at run lo hi)
mm_page_used_by_chainload-Holds c byte (in_attachment i at live run lo hi) =
    ground (arith, used_by_attachment-true c.attachments i byte at live run lo hi)
mm_page_used_by_chainload-Holds c byte (in_page_table i at run lo hi) =
    ground (arith, used_by_region-true c.page_table_regions i byte at run lo hi)

-- ===== src/Mm/FreePage.antt =====
-- mm_get_free_page of hv/src/memory_management/memory_management.c: the search for a page that no
-- component uses, downwards through the usable regions of the memory map and round again.
pub mod Sound
pub mod Rank
pub mod Complete
pub mod Stuck
use rkhv.Base.{
  ℕ, zero, suc, ◌+◌, ◌-◌, ◌*◌, ◌%◌, ◌^◌, ◌≡◌, refl, Bool, true, false, ◌&&◌, ◌||◌, Option, none,
  some, List, [], ◌∷◌, ltb, leb, ◌==◌, if◌then◌else◌, not, nonzero, get_elem?,
}
use rkhv.Base.Result.{Result, ok, panic, out_of_bounds, out_of_memory, ◌>>=◌}
use rkhv.Memory.{page_size}
use rkhv.Mm.Chainload.{MmapDesc, rkhv_max_efi_mmap_descriptors}

-- (size_t)-1
abbrev pub size_max : ℕ
size_max = 2 ^ 64 - 1

-- A region of the map and a page in it: the two indices of the search.
pub record Position : Type 0 where
  pub region : ℕ
  pub page : ℕ

abbrev pub is_set : Position → Bool
is_set p = not (p.region == size_max || p.page == size_max)

abbrev pub same_position : Position → Position → Bool
same_position p q = p.region == q.region && p.page == q.page

-- `for (size_t i = from; i >= 0; i--)`, up to its break. The test holds of every size_t, so below
-- entry 0 the loop goes on with reads outside of the array.
unfoldable pub scan_down : List MmapDesc → ℕ → Result Position
scan_down map zero = elim (get_elem? map zero) [
  | none ↦ out_of_bounds
  | some d ↦
      if d.usable && nonzero d.pages
      then ok (record { region = zero; page = d.pages - 1 })
      else out_of_bounds
]
scan_down map (suc i) =
    let next = scan_down map i in
    elim (get_elem? map (suc i)) [
      | none ↦ out_of_bounds
      | some d ↦
          if d.usable && nonzero d.pages
          then ok (record { region = suc i; page = d.pages - 1 })
          else next
    ]

-- The position after `p`: the page below, or the last page of the next usable region below, from
-- the end of the map again if `p` is in region 0. The do-while makes one turn, since `pages - 1`
-- of a 63-bit `pages` is never (size_t)-1.
unfoldable pub next_position : List MmapDesc → Position → Result Position
next_position map p = elim (get_elem? map p.region) [
  | none ↦ out_of_bounds
  | some d ↦
      let page' = (p.page + size_max) % 2 ^ 64 in
      let top =
        if leb p.region 0 || ltb rkhv_max_efi_mmap_descriptors p.region
        then rkhv_max_efi_mmap_descriptors
        else p.region in
      if leb d.pages page'
      then scan_down map (top - 1)
      else ok (record { region = p.region; page = page' })
]

-- Where the search starts: at the last page returned, or at the last usable page of the map. The
-- PANIC for a start that is not found is behind a scan that only ends by finding one.
unfoldable pub first_position : List MmapDesc → Position → Result Position
first_position map last =
    if is_set last then ok last else scan_down map (rkhv_max_efi_mmap_descriptors - 1)

unfoldable pub page_address : MmapDesc → ℕ → ℕ
page_address d page = (d.physical_address + page * page_size) % 2 ^ 64

-- The page and the new values of the two static variables.
abbrev pub Found : Type 0
Found = ℕ × Position

-- The loop with `fuel` turns; `none` means that they did not suffice. `complete` is where a
-- complete turn through the map ends, once it is set.
module _ (map : List MmapDesc) (is_free : ℕ → Bool) where
  unfoldable pub search_loop : ℕ → Position → Position → Option (Result Found)
  search_loop zero p complete = none
  search_loop (suc fuel) p complete =
      if same_position p complete
      then some (panic out_of_memory)
      else elim (get_elem? map p.region) [
        | none ↦ some out_of_bounds
        | some d ↦
            if is_free (page_address d p.page)
            then some (ok (page_address d p.page, p))
            else elim (next_position map p) [
              | ok q ↦ search_loop fuel q (if is_set complete then complete else p)
              | panic e ↦ some (panic e)
              | out_of_bounds ↦ some out_of_bounds
            ]
      ]

  unfoldable pub mm_get_free_page : ℕ → Position → Option (Result Found)
  mm_get_free_page fuel last = elim (first_position map last) [
    | ok p ↦ search_loop fuel p (record { region = size_max; page = size_max })
    | panic e ↦ some (panic e)
    | out_of_bounds ↦ some out_of_bounds
  ]

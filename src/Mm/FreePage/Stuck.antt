-- ===== src/Mm/FreePage/Stuck.antt =====
-- The scans of mm_get_free_page, memory_management.c, below the lowest usable region.
use rkhv.Base.{
  ℕ, zero, suc, ◌-◌, ◌<◌, ◌≤◌, ◌≡◌, refl, ap, ◌∙◌, Bool, true, false, ◌&&◌, some, List, arith,
  if◌then◌else◌, get_elem?, length, Option-cases, inl, inr, nonzero,
}
use rkhv.Base.Result.{out_of_bounds}
use rkhv.Mm.Chainload.{MmapDesc, rkhv_max_efi_mmap_descriptors}
use rkhv.Mm.FreePage.{
  Position, is_set, same_position, scan_down, first_position, page_address, search_loop,
  mm_get_free_page,
}
use rkhv.Mm.FreePage.Sound.{
  IsAt, IsMap, next_position-inside, next_position-below, here_used, here_stuck,
}
use rkhv.Mm.FreePage.Rank.{region-lt}

-- No region up to entry `i` has a usable page.
abbrev pub NoneUpTo : List MmapDesc → ℕ → Type 0
NoneUpTo map i =
    (j : ℕ) (d : MmapDesc)
    → j ≤ i
    → get_elem? map j ≡ some d
    → (d.usable && nonzero d.pages) ≡ false

scan_down-NoneUpTo :
    (map : List MmapDesc) (i : ℕ) → NoneUpTo map i → scan_down map i ≡ out_of_bounds
unfolding scan_down
scan_down-NoneUpTo map zero none_up = elim (Option-cases (get_elem? map 0)) [
  | inl n ↦ ground arith
  | inr (d, at) ↦ ground (arith, none_up 0 d (omega arith) at)
]
scan_down-NoneUpTo map (suc i) none_up =
    let below = scan_down-NoneUpTo map i (λ j d h at. none_up j d (omega arith) at) in
    elim (Option-cases (get_elem? map (suc i))) [
      | inl n ↦ ground arith
      | inr (d, at) ↦ ground (arith, none_up (suc i) d (omega arith) at)
    ]

-- `p` is in a region other than 0, no region below it has a usable page, and the pages of its
-- region from `p` down are all in use.
pub record IsExhausted (map : List MmapDesc) (is_free : ℕ → Bool) (p : Position) : Type 0 where
  pub small : IsMap map
  pub full : length map ≡ rkhv_max_efi_mmap_descriptors
  pub at : IsAt map p
  pub above_zero : 0 < p.region
  pub none_below : NoneUpTo map (p.region - 1)
  pub used : (page : ℕ) → page ≤ p.page → is_free (page_address at.desc page) ≡ false

module _ (map : List MmapDesc) (is_free : ℕ → Bool) where
  loop-IsExhausted :
      (n fuel : ℕ) (p complete : Position)
      → IsExhausted map is_free p
      → p.page ≡ n
      → n < fuel
      → same_position p complete ≡ false
      → (is_set complete ≡ true → p.page < complete.page)
      → search_loop map is_free fuel p complete ≡ some out_of_bounds
  loop-IsExhausted n zero p complete x e h ne later = absurd (omega arith)
  loop-IsExhausted zero (suc fuel) p complete x e h ne later =
      here_stuck map is_free x.small fuel p complete x.at ne (x.used p.page (omega arith)) (
        next_position-below map p x.small x.at e
        ∙ ap (scan_down map) (ground (arith, x.above_zero, region-lt map p x.at, x.full))
        ∙ scan_down-NoneUpTo map (p.region - 1) x.none_below)
  loop-IsExhausted (suc n) (suc fuel) p complete x e h ne later =
      let q : Position = record { region = p.region; page = p.page - 1 } in
      let y : IsExhausted map is_free q = record {
        small = x.small;
        full = x.full;
        at = record {
          desc = x.at.desc;
          found = x.at.found;
          usable = x.at.usable;
          inside = omega (arith, x.at.inside);
        };
        above_zero = x.above_zero;
        none_below = x.none_below;
        used = λ page le. x.used page (omega arith);
      } in
      here_used map is_free x.small fuel p q complete x.at ne (x.used p.page (omega arith))
        (next_position-inside map p x.small x.at (omega arith))
      ∙ loop-IsExhausted n fuel q (if is_set complete then complete else p) y (omega arith)
          (omega arith) (ground (arith, later)) (ground (arith, later))

  -- When the page returned last lies in a region other than 0, no region below it has a usable
  -- page and the pages of that region from there down are in use, mm_get_free_page does not go
  -- round to the top of the map: it reads outside of the array, whatever pages are free above.
  pub mm_get_free_page-out_of_bounds :
      (fuel : ℕ) (previous : Position)
      → IsExhausted map is_free previous
      → previous.page < fuel
      → mm_get_free_page map is_free fuel previous ≡ some out_of_bounds
  unfolding mm_get_free_page first_position
  mm_get_free_page-out_of_bounds fuel previous x enough =
      let bound = x.small previous.region x.at.desc x.at.found in
      let set : is_set previous ≡ true =
        ground (arith, region-lt map previous x.at, x.full, x.at.inside, bound) in
      rw (set, mm_get_free_page)
        (loop-IsExhausted previous.page fuel previous _ x refl enough
          (ground (arith, region-lt map previous x.at, x.full)) (λ s. ground (arith, s)))

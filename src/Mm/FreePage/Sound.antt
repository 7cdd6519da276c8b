-- ===== src/Mm/FreePage/Sound.antt =====
-- What mm_get_free_page returns, and when it reads outside of the memory map.
use rkhv.Base.{
  ℕ, zero, suc, ◌-◌, ◌^◌, ◌<◌, ◌≤◌, ◌≡◌, refl, sym, ◌∙◌, subst, subst₂, ◌||◌, Bool, true, false,
  ◌&&◌, some, List, arith, ltb, leb, ◌==◌, if◌then◌else◌, nonzero, get_elem?, Bool-cases,
  Option-cases, inl, inr,
}
use rkhv.Base.Result.{Panic, ok, panic, out_of_bounds, out_of_memory, Result-cases}
use rkhv.Mm.Chainload.{MmapDesc, rkhv_max_efi_mmap_descriptors}
use rkhv.Mm.FreePage.{
  Position, is_set, same_position, scan_down, next_position, first_position, page_address,
  search_loop, mm_get_free_page,
}

-- A page of a usable region of the map.
pub record IsAt (map : List MmapDesc) (p : Position) : Type 0 where
  pub desc : MmapDesc
  pub found : get_elem? map p.region ≡ some desc
  pub usable : desc.usable ≡ true
  pub inside : p.page < desc.pages

-- Bit fields of 63 bits.
abbrev pub IsMap : List MmapDesc → Type 0
IsMap map = (i : ℕ) (d : MmapDesc) → get_elem? map i ≡ some d → d.pages < 2 ^ 63

pub scan_down-IsAt :
    (map : List MmapDesc) (i : ℕ) (p : Position)
    → scan_down map i ≡ ok p
    → IsAt map p × (p.region ≤ i)
unfolding scan_down
scan_down-IsAt map zero p e = elim (Option-cases (get_elem? map 0)) [
  | inl n ↦ ground arith
  | inr (d, s) ↦
      let er : p.region ≡ 0 = ground arith in
      (
        record { desc = d; found = rw er s; usable = ground arith; inside = ground arith },
        omega arith,
      )
]
scan_down-IsAt map (suc i) p e = elim (Option-cases (get_elem? map (suc i))) [
  | inl n ↦ ground arith
  | inr (d, s) ↦ elim (Bool-cases (d.usable && nonzero d.pages)) [
    | inl u ↦
        let er : p.region ≡ suc i = ground arith in
        (
          record { desc = d; found = rw er s; usable = ground arith; inside = ground arith },
          omega arith,
        )
    | inr u ↦
        let below : scan_down map i ≡ ok p = ground arith in
        let (at, le) = scan_down-IsAt map i p below in (at, omega arith)
  ]
]

-- The two ways on: within the region, and to the next one below.
pub next_position-inside :
    (map : List MmapDesc) (p : Position)
    → IsMap map
    → IsAt map p
    → 0 < p.page
    → next_position map p ≡ ok (record { region = p.region; page = p.page - 1 })
unfolding next_position
next_position-inside map p small at pos =
    let bound = small p.region at.desc at.found in
    rw (at.found, next_position) (ground (arith, at.inside, bound))

abbrev pub above : ℕ → ℕ
above region =
    if leb region 0 || ltb rkhv_max_efi_mmap_descriptors region
    then rkhv_max_efi_mmap_descriptors
    else region

pub next_position-below :
    (map : List MmapDesc) (p : Position)
    → IsMap map
    → IsAt map p
    → p.page ≡ 0
    → next_position map p ≡ scan_down map (above p.region - 1)
unfolding next_position
next_position-below map p small at first =
    let bound = small p.region at.desc at.found in
    rw (at.found, next_position) (ground (arith, at.inside, bound))

-- One step stays on usable pages.
pub next_position-IsAt :
    (map : List MmapDesc) (p q : Position)
    → IsMap map
    → IsAt map p
    → next_position map p ≡ ok q
    → IsAt map q
next_position-IsAt map p q small at e = elim (Bool-cases (p.page == 0)) [
  | inl z ↦
      (scan_down-IsAt map (above p.region - 1) q
        (sym (next_position-below map p small at (ground arith)) ∙ e)).0
  | inr nz ↦
      let eq : record p { page = p.page - 1 } ≡ q =
        ground (arith, next_position-inside map p small at (ground arith)) in
      subst (IsAt map) eq (record {
        desc = at.desc;
        found = at.found;
        usable = at.usable;
        inside = omega (arith, at.inside);
      })
]

pub first_position-IsAt :
    (map : List MmapDesc) (last p : Position)
    → (is_set last ≡ true → IsAt map last)
    → first_position map last ≡ ok p
    → IsAt map p
unfolding first_position
first_position-IsAt map last p at e = elim (Bool-cases (is_set last)) [
  | inl s ↦ let el : last ≡ p = ground arith in subst (IsAt map) el (at s)
  | inr n ↦ (scan_down-IsAt map 230 p (rw n at e)).0
]

-- The result of a search: a free page of a usable region, and the static variables that point at it.
pub record IsFound (map : List MmapDesc) (is_free : ℕ → Bool) (address : ℕ) (last : Position)
    : Type 0 where
  pub at : IsAt map last
  pub address_is : address ≡ page_address at.desc last.page
  pub free : is_free address ≡ true

module _ (map : List MmapDesc) (is_free : ℕ → Bool) (small : IsMap map) where
  pub here_free :
      (fuel : ℕ) (p complete : Position) (at : IsAt map p)
      → same_position p complete ≡ false
      → is_free (page_address at.desc p.page) ≡ true
      → search_loop map is_free (suc fuel) p complete ≡ some (ok (page_address at.desc p.page, p))
  unfolding search_loop
  here_free fuel p complete at ne free = rw (ne, at.found, free) refl

  pub here_used :
      (fuel : ℕ) (p q complete : Position) (at : IsAt map p)
      → same_position p complete ≡ false
      → is_free (page_address at.desc p.page) ≡ false
      → next_position map p ≡ ok q
      → search_loop map is_free (suc fuel) p complete
        ≡ search_loop map is_free fuel q (if is_set complete then complete else p)
  unfolding search_loop
  here_used fuel p q complete at ne used step = rw (ne, at.found, used, step) refl

  pub here_stuck :
      (fuel : ℕ) (p complete : Position) (at : IsAt map p)
      → same_position p complete ≡ false
      → is_free (page_address at.desc p.page) ≡ false
      → next_position map p ≡ out_of_bounds
      → search_loop map is_free (suc fuel) p complete ≡ some out_of_bounds
  unfolding search_loop
  here_stuck fuel p complete at ne used step = rw (ne, at.found, used, step) refl

  here_panic :
      (fuel : ℕ) (p complete : Position) (at : IsAt map p) (x : Panic)
      → same_position p complete ≡ false
      → is_free (page_address at.desc p.page) ≡ false
      → next_position map p ≡ panic x
      → search_loop map is_free (suc fuel) p complete ≡ some (panic x)
  unfolding search_loop
  here_panic fuel p complete at x ne used step = rw (ne, at.found, used, step) refl

  pub here_again :
      (fuel : ℕ) (p complete : Position)
      → same_position p complete ≡ true
      → search_loop map is_free (suc fuel) p complete ≡ some (panic out_of_memory)
  unfolding search_loop
  here_again fuel p complete again = rw again refl

  search_loop-IsFound :
      (fuel : ℕ) (p complete : Position) {address : ℕ} {last : Position}
      → IsAt map p
      → search_loop map is_free fuel p complete ≡ some (ok (address, last))
      → IsFound map is_free address last
  search_loop-IsFound zero p complete at e = unfold search_loop in cc
  search_loop-IsFound (suc fuel) p complete {address} {last} at e =
      elim (Bool-cases (same_position p complete)) [
        | inl again ↦ cc (here_again fuel p complete again)
        | inr ne ↦ elim (Bool-cases (is_free (page_address at.desc p.page))) [
          | inl free ↦
              let done = sym (here_free fuel p complete at ne free) ∙ e in
              let ea : page_address at.desc p.page ≡ address = ground (arith, done) in
              let el : p ≡ last = ground (arith, done) in
              subst₂ (IsFound map is_free) ea el
                (record { at = at; address_is = refl; free = free })
          | inr used ↦ elim (Result-cases (next_position map p)) [
            | inl (q, step) ↦
                search_loop-IsFound fuel q _ (next_position-IsAt map p q small at step)
                  (sym (here_used fuel p q complete at ne used step) ∙ e)
            | inr (inl (x, step)) ↦ cc (here_panic fuel p complete at x ne used step)
            | inr (inr step) ↦ cc (here_stuck fuel p complete at ne used step)
          ]
        ]
      ]

  -- A page that mm_get_free_page returns is one of a usable region of the memory map, no component
  -- uses it, and the static variables are left pointing at it, whatever page was returned last.
  pub mm_get_free_page-IsFound :
      (fuel : ℕ) (previous : Position) (address : ℕ) (last : Position)
      → (is_set previous ≡ true → IsAt map previous)
      → mm_get_free_page map is_free fuel previous ≡ some (ok (address, last))
      → IsFound map is_free address last
  unfolding mm_get_free_page
  mm_get_free_page-IsFound fuel previous address last before e =
      elim (Result-cases (first_position map previous)) [
        | inl (p, f) ↦
            search_loop-IsFound fuel p _ (first_position-IsAt map previous p before f)
              (rw (f, mm_get_free_page) at e)
        | inr (inl (x, f)) ↦ cc (rw (f, mm_get_free_page) at e)
        | inr (inr f) ↦ cc (rw (f, mm_get_free_page) at e)
      ]

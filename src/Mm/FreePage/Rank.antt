-- ===== src/Mm/FreePage/Rank.antt =====
-- The usable pages of the memory map, numbered from the bottom: each turn of the search goes to
-- the number below, and from 0 to the highest.
use rkhv.Base.{
  ℕ, zero, suc, ◌+◌, ◌-◌, ◌<◌, ◌≤◌, ◌≡◌, refl, sym, ap, ◌∙◌, true, ◌&&◌, none, some, List, [], ◌∷◌,
  arith, ◌==◌, if◌then◌else◌, nonzero, get_elem?, length, Bool-cases, Option-cases, inl, inr, ◌⊎◌,
}
use rkhv.Base.Result.{ok}
use rkhv.Mm.Chainload.{MmapDesc, rkhv_max_efi_mmap_descriptors}
use rkhv.Mm.FreePage.{Position, scan_down, next_position}
use rkhv.Mm.FreePage.Sound.{IsAt, IsMap, above, next_position-inside, next_position-below}

abbrev pub weight : MmapDesc → ℕ
weight d = if d.usable then d.pages else 0

-- The usable pages of the first `n` regions.
unfoldable pub before : List MmapDesc → ℕ → ℕ
before [] n = 0
before (d ∷ map) zero = 0
before (d ∷ map) (suc n) = weight d + before map n

pub rank : List MmapDesc → Position → ℕ
rank map p = before map p.region + p.page

pub before-zero : (map : List MmapDesc) → before map 0 ≡ 0
unfolding before
before-zero [] = refl
before-zero (d ∷ map) = refl

before-suc :
    (map : List MmapDesc) (i : ℕ) {d : MmapDesc}
    → get_elem? map i ≡ some d
    → before map (suc i) ≡ before map i + weight d
unfolding before
before-suc [] i at = cc
before-suc (x ∷ map) zero at = ground (arith, before-zero map)
before-suc (x ∷ map) (suc i) at = omega (arith, before-suc map i at)

before_mono : (map : List MmapDesc) (i j : ℕ) → i ≤ j → before map i ≤ before map j
unfolding before
before_mono [] i j h = omega arith
before_mono (x ∷ map) zero j h = omega arith
before_mono (x ∷ map) (suc i) zero h = absurd (omega arith)
before_mono (x ∷ map) (suc i) (suc j) h = omega (arith, before_mono map i j (omega arith))

get_elem?-lt {ℓ} :
    {A : Type ℓ} (xs : List A) (i : ℕ) {a : A} → get_elem? xs i ≡ some a → i < length xs
get_elem?-lt [] i at = cc
get_elem?-lt (x ∷ xs) zero at = omega arith
get_elem?-lt (x ∷ xs) (suc i) at = omega (arith, get_elem?-lt xs i at)

get_elem?-ne_none {ℓ} :
    {A : Type ℓ} (xs : List A) (i : ℕ) → i < length xs → get_elem? xs i ≡ none → ⊥
get_elem?-ne_none [] i h e = absurd (omega arith)
get_elem?-ne_none (x ∷ xs) zero h e = cc
get_elem?-ne_none (x ∷ xs) (suc i) h e = get_elem?-ne_none xs i (omega arith) e

abbrev pub total : List MmapDesc → ℕ
total map = before map (length map)

module _ (map : List MmapDesc) where
  rank-next_region : (p : Position) (at : IsAt map p) → rank map p < before map (suc p.region)
  unfolding rank
  rank-next_region p at = ground (arith, before-suc map p.region at.found, at.inside, at.usable)

  pub region-lt : (p : Position) → IsAt map p → p.region < length map
  region-lt p at = get_elem?-lt map p.region at.found

  pub rank-lt : (p : Position) → IsAt map p → rank map p < total map
  rank-lt p at =
      omega
        (arith, rank-next_region p at, before_mono map (suc p.region) (length map) (region-lt p at))

  -- The number determines the position.
  pub rank-injective :
      (p q : Position)
      → IsAt map p
      → IsAt map q
      → rank map p ≡ rank map q
      → (p.region ≡ q.region) × (p.page ≡ q.page)
  unfolding rank
  rank-injective p q at_p at_q e = ground (
    arith,
    rank-next_region p at_p,
    rank-next_region q at_q,
    before_mono map (suc p.region) q.region,
    before_mono map (suc q.region) p.region,
  )

  scan_down-rank :
      (i : ℕ) (q : Position) → scan_down map i ≡ ok q → rank map q + 1 ≡ before map (suc i)
  unfolding scan_down rank
  scan_down-rank zero q e = elim (Option-cases (get_elem? map 0)) [
    | inl n ↦ ground arith
    | inr (d, at) ↦ ground (arith, before-suc map 0 at, before-zero map)
  ]
  scan_down-rank (suc i) q e = elim (Option-cases (get_elem? map (suc i))) [
    | inl n ↦ ground arith
    | inr (d, at) ↦ elim (Bool-cases (d.usable && nonzero d.pages)) [
      | inl u ↦ ground (arith, before-suc map (suc i) at)
      | inr u ↦
          let ih = scan_down-rank i q (ground arith) in ground (arith, before-suc map (suc i) at)
    ]
  ]

  -- With a usable page in region 0 a scan finds a page.
  pub scan_down-total :
      {d₀ : MmapDesc}
      → get_elem? map 0 ≡ some d₀
      → d₀.usable ≡ true
      → 0 < d₀.pages
      → (i : ℕ) → i < length map
      → (q : Position) × (scan_down map i ≡ ok q)
  unfolding scan_down
  scan_down-total {d₀} at₀ usable pos zero h =
      (record { region = zero; page = d₀.pages - 1 }, ground arith)
  scan_down-total {d₀} at₀ usable pos (suc i) h =
      let (q, below) = scan_down-total at₀ usable pos i (omega arith) in
      elim (Option-cases (get_elem? map (suc i))) [
        | inl n ↦ absurd (get_elem?-ne_none map (suc i) h n)
        | inr (d, at) ↦ elim (Bool-cases (d.usable && nonzero d.pages)) [
          | inl u ↦ (record { region = suc i; page = d.pages - 1 }, ground arith)
          | inr u ↦ (q, ground arith)
        ]
      ]

  -- The number after `p`.
  pub next_position-rank :
      (p q : Position)
      → IsMap map
      → length map ≡ rkhv_max_efi_mmap_descriptors
      → IsAt map p
      → next_position map p ≡ ok q
      → (rank map q + 1 ≡ rank map p) ⊎ ((rank map p ≡ 0) × (rank map q + 1 ≡ total map))
  unfolding rank
  next_position-rank p q small len at e = elim (Bool-cases (p.page == 0)) [
    | inl z ↦
        let first : p.page ≡ 0 = ground arith in
        let scan = sym (next_position-below map p small at first) ∙ e in
        ground (
          arith,
          scan_down-rank (above p.region - 1) q scan,
          region-lt p at,
          before-zero map,
          ap (before map) len,
        )
    | inr nz ↦
        let pos : 0 < p.page = ground arith in
        let step = sym (next_position-inside map p small at pos) ∙ e in
        let ih : record { region = p.region; page = p.page - 1 } ≡ q = ground (arith, step) in
        inl (ground (arith, ih))
  ]

  -- With a usable page in region 0 there is one after every page.
  pub next_position-total :
      (p : Position) {d₀ : MmapDesc}
      → IsMap map
      → length map ≡ rkhv_max_efi_mmap_descriptors
      → get_elem? map 0 ≡ some d₀
      → d₀.usable ≡ true
      → 0 < d₀.pages
      → IsAt map p
      → (q : Position) × (next_position map p ≡ ok q)
  next_position-total p small len at₀ usable pos at = elim (Bool-cases (p.page == 0)) [
    | inl z ↦
        let first : p.page ≡ 0 = ground arith in
        let (q, scan) =
          scan_down-total at₀ usable pos (above p.region - 1) (ground (arith, region-lt p at)) in
        (q, next_position-below map p small at first ∙ scan)
    | inr nz ↦ (
      record { region = p.region; page = p.page - 1 },
      next_position-inside map p small at (ground arith),
    )
  ]

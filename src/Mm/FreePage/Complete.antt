-- ===== src/Mm/FreePage/Complete.antt =====
-- The end of the search of mm_get_free_page, memory_management.c: how many turns it makes.
use rkhv.Base.{
  ℕ, zero, suc, ◌+◌, ◌-◌, ◌<◌, ◌≤◌, ◌≡◌, refl, sym, ap, ◌∙◌, Bool, true, false, Option, some, List,
  arith, ltb, leb, get_elem?, length, Bool-cases, inl, inr, ◌⊎◌, subst,
}
use rkhv.Base.Result.{Result, ok, panic, out_of_memory}
use rkhv.Mm.Chainload.{MmapDesc, rkhv_max_efi_mmap_descriptors}
use rkhv.Mm.FreePage.{
  Position, size_max, is_set, same_position, next_position, first_position, page_address, Found,
  search_loop, mm_get_free_page,
}
use rkhv.Mm.FreePage.Sound.{
  IsAt, IsMap, IsFound, next_position-IsAt, first_position-IsAt, here_free, here_used, here_again,
}
use rkhv.Mm.FreePage.Rank.{
  rank, total, rank-lt, rank-injective, region-lt, next_position-rank, next_position-total,
  scan_down-total,
}

-- A map of the full size, whose region 0 is usable and not empty.
pub record IsUsual (map : List MmapDesc) : Type 0 where
  pub small : IsMap map
  pub full : length map ≡ rkhv_max_efi_mmap_descriptors
  pub desc : MmapDesc
  pub first : get_elem? map 0 ≡ some desc
  pub usable : desc.usable ≡ true
  pub pos : 0 < desc.pages

module _ (map : List MmapDesc) (is_free : ℕ → Bool) (usual : IsUsual map) where
  abbrev pub AllUsed : Type 0
  AllUsed = (x : Position) (at : IsAt map x) → is_free (page_address at.desc x.page) ≡ false

  abbrev pub Outcome : Option (Result Found) → Type 0
  Outcome r =
      ((found : Found) × (r ≡ some (ok found)) × IsFound map is_free found.0 found.1)
      ⊎ ((r ≡ some (panic out_of_memory)) × AllUsed)

  -- `k` turns after the start `s` the search is at `p`: the number is `k` lower, round the map.
  abbrev Behind : Position → Position → ℕ → Type 0
  Behind s p k = (rank map p + k ≡ rank map s) ⊎ (rank map p + k ≡ rank map s + total map)

  abbrev Seen : Position → ℕ → Type 0
  Seen s k =
      (x : Position) (d : ℕ) (at : IsAt map x)
      → d < k
      → Behind s x d
      → is_free (page_address at.desc x.page) ≡ false

  Seen-all : (s : Position) → IsAt map s → Seen s (total map) → AllUsed
  Seen-all s at_s seen x at = elim (Bool-cases (leb (rank map x) (rank map s))) [
    | inl le ↦
        seen x (rank map s - rank map x) at (ground (arith, rank-lt map s at_s))
          (inl (ground arith))
    | inr gt ↦
        seen x (rank map s + total map - rank map x) at (ground (arith, rank-lt map x at))
          (inr (ground (arith, rank-lt map x at)))
  ]

  Seen-suc :
      (s p : Position) (k : ℕ) (at : IsAt map p)
      → IsAt map s
      → Behind s p k
      → is_free (page_address at.desc p.page) ≡ false
      → Seen s k
      → Seen s (suc k)
  Seen-suc s p k at at_s behind used seen x d at_x h b = elim (Bool-cases (ltb d k)) [
    | inl lt ↦ seen x d at_x (ground arith) b
    | inr ge ↦
        let e : rank map x ≡ rank map p = ground (arith, rank-lt map x at_x, rank-lt map p at) in
        let (er, ep) = rank-injective map x p at_x at e in
        let ed : some at_x.desc ≡ some at.desc =
          sym at_x.found ∙ ap (get_elem? map) er ∙ at.found in
        ground (arith, used, ed, ep)
  ]

  Behind-next :
      (s p q : Position) (k : ℕ)
      → IsAt map p
      → IsAt map s
      → next_position map p ≡ ok q
      → k < total map
      → Behind s p k
      → Behind s q (suc k)
  Behind-next s p q k at at_s step h behind =
      ground (arith, next_position-rank map p q usual.small usual.full at step, rank-lt map s at_s)

  IsAt-is_set : (p : Position) → IsAt map p → is_set p ≡ true
  IsAt-is_set p at =
      ground
        (arith, region-lt map p at, usual.full, at.inside, usual.small p.region at.desc at.found)

  -- Short of a whole turn through the map the search is not back at its start.
  not_round :
      (s p : Position) (k : ℕ)
      → IsAt map s
      → IsAt map p
      → k ≤ total map
      → Behind s p k
      → same_position p s ≡ false
      → k < total map
  not_round s p k at_s at h behind ne =
      ground (arith, rank-injective map p s at at_s, rank-lt map s at_s, rank-lt map p at)

  found_here :
      (fuel : ℕ) (p complete : Position) (at : IsAt map p)
      → same_position p complete ≡ false
      → is_free (page_address at.desc p.page) ≡ true
      → Outcome (search_loop map is_free (suc fuel) p complete)
  found_here fuel p complete at ne free = inl (
    (page_address at.desc p.page, p),
    here_free map is_free usual.small fuel p complete at ne free,
    record { at = at; address_is = refl; free = free },
  )

  first_position-total :
      (previous : Position) → (p : Position) × (first_position map previous ≡ ok p)
  unfolding first_position
  first_position-total previous = elim (Bool-cases (is_set previous)) [
    | inl set ↦ (previous, rw set)
    | inr unset ↦
        let (p, scan) =
          scan_down-total map usual.first usual.usable usual.pos 230 (omega (arith, usual.full)) in
        (p, rw unset scan)
  ]

  -- From the second turn on, with the start recorded.
  search_loop-Outcome :
      (fuel k : ℕ) (s p : Position)
      → IsAt map s
      → IsAt map p
      → 0 < k
      → k ≤ total map
      → total map < fuel + k
      → Behind s p k
      → Seen s k
      → Outcome (search_loop map is_free fuel p s)
  search_loop-Outcome zero k s p at_s at pos h enough behind seen = absurd (omega arith)
  search_loop-Outcome (suc fuel) k s p at_s at pos h enough behind seen =
      elim (Bool-cases (same_position p s)) [
        | inl again ↦
            let er : p.region ≡ s.region = ground arith in
            let ep : p.page ≡ s.page = ground arith in
            let e : rank map p ≡ rank map s = ground (arith, er, ep) in
            let ek : k ≡ total map = ground (arith, e) in
            inr (
              here_again map is_free usual.small fuel p s again,
              Seen-all s at_s (subst (Seen s) ek seen),
            )
        | inr ne ↦
            let (q, step) =
              next_position-total map p usual.small usual.full usual.first usual.usable usual.pos
                at in
            let left = not_round s p k at_s at h behind ne in
            let at_q = next_position-IsAt map p q usual.small at step in
            elim (Bool-cases (is_free (page_address at.desc p.page))) [
              | inl free ↦ found_here fuel p s at ne free
              | inr used ↦
                  rw
                    (
                      here_used map is_free usual.small fuel p q s at ne used step,
                      IsAt-is_set s at_s,
                    )
                    (search_loop-Outcome fuel (suc k) s q at_s at_q (omega arith) left (omega arith)
                      (Behind-next s p q k at at_s step left behind)
                      (Seen-suc s p k at at_s behind used seen))
            ]
      ]

  -- With a map whose region 0 is usable and not empty, and with more turns allowed than there are
  -- usable pages, mm_get_free_page ends: it returns a free page of a usable region, or it PANICs
  -- with OOM and then no page of any usable region is free. It reads nothing outside of the map.
  pub mm_get_free_page-Outcome :
      (fuel : ℕ) (previous : Position)
      → (is_set previous ≡ true → IsAt map previous)
      → total map < fuel
      → Outcome (mm_get_free_page map is_free fuel previous)
  unfolding mm_get_free_page
  mm_get_free_page-Outcome zero previous valid enough = absurd (omega arith)
  mm_get_free_page-Outcome (suc fuel) previous valid enough =
      let (s, start) = first_position-total previous in
      let at = first_position-IsAt map previous s valid start in
      let unset : Position = record { region = size_max; page = size_max } in
      let ne : same_position s unset ≡ false = ground (arith, region-lt map s at, usual.full) in
      let (q, step) =
        next_position-total map s usual.small usual.full usual.first usual.usable usual.pos at in
      let at_q = next_position-IsAt map s q usual.small at step in
      rw (start, mm_get_free_page)
        (elim (Bool-cases (is_free (page_address at.desc s.page))) [
          | inl free ↦ found_here fuel s unset at ne free
          | inr used ↦ rw (here_used map is_free usual.small fuel s q unset at ne used step) (
              search_loop-Outcome fuel 1 s q at at_q (omega arith) (omega (arith, rank-lt map s at))
                (omega arith)
                (Behind-next s s q 0 at at step (omega (arith, rank-lt map s at))
                  (inl (omega arith)))
                (Seen-suc s s 0 at at (inl (omega arith)) used
                  (λ x d at_x h. absurd (omega arith))))
        ])

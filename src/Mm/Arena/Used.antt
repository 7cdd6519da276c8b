-- ===== src/Mm/Arena/Used.antt =====
-- mm_page_used_by_arena of hv/src/memory_management/arena.c.
use rkhv.Base.{
  ℕ, ◌≡◌, refl, ◌<◌, zero, suc, bit_and, Bool, false, ◌||◌, List, [], ◌∷◌, some, arith, ◌==◌,
  Bool-cases, inl, inr, length,
}
use rkhv.Memory.{v2p_identity_map}
use rkhv.Paging.{page_mask}
use rkhv.Mm.Arena.{Ptr, null, Arenas, used_by_arena_loop, mm_page_used_by_arena}
use rkhv.Mm.Arena.Chain.{first, IsChain, IsArenas}

-- Whether one of the arenas stands in the physical page.
abbrev pub stands_in : ℕ → List Ptr → Bool
stands_in page [] = false
stands_in page (x ∷ xs) = page == v2p_identity_map x || stands_in page xs

used_by_arena_loop-stands_in :
    (a : Arenas) (fuel page : ℕ) (prev : Ptr) (xs : List Ptr)
    → IsChain a.header prev xs
    → length xs < fuel
    → used_by_arena_loop a fuel page (first xs) ≡ some (stands_in page xs)
unfolding used_by_arena_loop
used_by_arena_loop-stands_in a zero page prev xs c h = absurd (omega arith)
used_by_arena_loop-stands_in a (suc fuel) page prev [] c h = refl
used_by_arena_loop-stands_in a (suc fuel) page prev (x ∷ xs) c h =
    let e : (x == null) ≡ false = ground (arith, c.0) in
    let rest = used_by_arena_loop-stands_in a fuel page x xs c.5 (omega arith) in
    elim (Bool-cases (page == v2p_identity_map x)) [
      | inl m ↦ rw (e, m) refl
      | inr m ↦ rw (e, m, c.4, c.3) rest
    ]

-- With fuel beyond the number of arenas the walk over the list ends, and it answers whether the
-- page of the address holds one of the arenas.
pub mm_page_used_by_arena-stands_in :
    (a : Arenas) (xs : List Ptr) (fuel page : ℕ)
    → IsArenas a xs
    → length xs < fuel
    → mm_page_used_by_arena a fuel page ≡ some (stands_in (bit_and page page_mask) xs)
unfolding mm_page_used_by_arena
mm_page_used_by_arena-stands_in a xs fuel page is h =
    rw is.head_is (used_by_arena_loop-stands_in a fuel (bit_and page page_mask) null xs is.chain h)

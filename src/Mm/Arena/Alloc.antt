-- ===== src/Mm/Arena/Alloc.antt =====
-- arena_allocate of hv/src/memory_management/arena.c.
use rkhv.Base.{
  ℕ, ◌+◌, ◌-◌, ◌%◌, ◌^◌, ◌≤◌, ◌<◌, ◌≡◌, ◌≢◌, refl, ◌⊎◌, inl, inr, arith, ltb, Bool-cases,
}
use rkhv.Base.Result.{ok, panic, subarenas_unsupported}
use rkhv.Memory.{page_size}
use rkhv.Mm.Arena.{Ptr, Arenas, write, sizeof_header, arena_allocate}

-- The arena's page lies in the address space, and the allocated bytes lie in the page.
pub record IsRoomy (a : Arenas) (arena : Ptr) : Type 0 where
  pub in_space : arena + page_size < 2 ^ 64
  pub in_page : (a.header arena).used_size + sizeof_header ≤ page_size

-- The block is the next one of the page, the count grows by its size, and nothing else changes.
pub record IsAllocated (a a' : Arenas) (arena block : Ptr) (size : ℕ) : Type 0 where
  pub start : block ≡ arena + sizeof_header + (a.header arena).used_size
  pub inside : block + size ≤ arena + page_size
  pub used : (a'.header arena).used_size ≡ (a.header arena).used_size + size
  pub others : (q : Ptr) → q ≢ arena → a'.header q ≡ a.header q
  pub links :
      ((a'.header arena).prev ≡ (a.header arena).prev)
      × ((a'.header arena).next ≡ (a.header arena).next)
      × ((a'.header arena).subarenas ≡ (a.header arena).subarenas)
      × (a'.head ≡ a.head)
  pub roomy : IsRoomy a' arena

-- In an arena whose used bytes lie in its page, an allocation that still fits returns the bytes
-- right after those in use, inside the page, and adds them to the used bytes, which stay in the
-- page; one that does not fit is the PANIC for sub-arenas.
pub arena_allocate-Outcome :
    (a : Arenas) (arena : Ptr) (size : ℕ)
    → IsRoomy a arena
    → (((a.header arena).used_size + sizeof_header + size ≤ page_size)
        × ((block : Ptr) × (a' : Arenas) × (arena_allocate a arena size ≡ ok (block, a'))
            × IsAllocated a a' arena block size))
      ⊎ ((page_size < (a.header arena).used_size + sizeof_header + size)
          × (arena_allocate a arena size ≡ panic subarenas_unsupported))
unfolding arena_allocate write
arena_allocate-Outcome a arena size r =
    let h = a.header arena in
    let i = r.in_page in
    let j = r.in_space in
    let room = (page_size + 2 ^ 64 - (h.used_size + sizeof_header) % 2 ^ 64) % 2 ^ 64 in
    elim (Bool-cases (ltb room size)) [
      | inl e ↦ inr (ground arith, rw e refl)
      | inr e ↦
          let u : (h.used_size + size) % 2 ^ 64 ≡ h.used_size + size = ground arith in
          inl (
            ground arith,
            (
              (arena + (h.used_size + sizeof_header)) % 2 ^ 64,
              record a {
                header =
                    write a.header arena (record h { used_size = (h.used_size + size) % 2 ^ 64 });
              },
              rw e refl,
              record {
                start = omega arith;
                inside = ground arith;
                used = ground arith;
                others = λ q ne. ground arith;
                links = (ground arith, ground arith, ground arith, refl);
                roomy = record { in_space = j; in_page = ground arith };
              },
            ),
          )
    ]

-- ===== src/Mm/Arena.antt =====
-- hv/src/memory_management/arena.c: arenas of one page each, in a doubly linked list whose headers
-- stand at the start of the pages. Pointers are host virtual addresses, and 0 is NULL.
pub mod Chain
pub mod Lists
pub mod Destroy
pub mod Alloc
pub mod Used
use rkhv.Base.{
  ℕ, zero, suc, ◌+◌, ◌-◌, ◌%◌, ◌^◌, bit_and, Bool, true, false, ◌||◌, Option, none, some, ltb, ◌==◌,
  if◌then◌else◌, not, ◌&&◌,
}
use rkhv.Base.Result.{Result, ok, panic, subarenas_unsupported, corrupted_arena_list, ◌>>=◌}
use rkhv.Memory.{page_size, p2v_identity_map, v2p_identity_map}
use rkhv.Paging.{page_mask}

abbrev pub Ptr : Type 0
Ptr = ℕ

abbrev pub null : Ptr
null = 0

-- arena_header_t
pub record Header : Type 0 where
  pub prev : Ptr
  pub next : Ptr
  pub subarenas : Ptr
  pub used_size : ℕ

-- arena_sub_header_t
pub record SubHeader : Type 0 where
  pub next : Ptr
  pub used_size : ℕ

abbrev pub sizeof_header : ℕ
sizeof_header = 32

-- `arena_head` and the headers in memory.
pub record Arenas : Type 0 where
  pub head : Ptr
  pub header : Ptr → Header
  pub sub_header : Ptr → SubHeader

unfoldable pub write : (Ptr → Header) → Ptr → Header → Ptr → Header
write f p h q = if q == p then h else f q

-- The inner loop of mm_page_used_by_arena; `none` is a list longer than the fuel.
unfoldable pub used_by_sub : Arenas → ℕ → ℕ → Ptr → Option Bool
used_by_sub a zero page it = none
used_by_sub a (suc fuel) page it =
    let rest = used_by_sub a fuel page (a.sub_header it).next in
    if it == null then some false else if page == v2p_identity_map it then some true else rest

unfoldable pub used_by_arena_loop : Arenas → ℕ → ℕ → Ptr → Option Bool
unfolding used_by_sub
used_by_arena_loop a zero page it = none
used_by_arena_loop a (suc fuel) page it =
    let rest = used_by_arena_loop a fuel page (a.header it).next in
    if it == null
    then some false
    else if page == v2p_identity_map it
    then some true
    else elim (used_by_sub a (suc fuel) page (a.header it).subarenas) [
      | none ↦ none
      | some found ↦ elim found [ true ↦ some true | false ↦ rest ]
    ]

unfoldable pub mm_page_used_by_arena : Arenas → ℕ → ℕ → Option Bool
unfolding used_by_arena_loop
mm_page_used_by_arena a fuel page_physical_address =
    used_by_arena_loop a fuel (bit_and page_physical_address page_mask) a.head

-- The address of the new block. size_t subtraction wraps.
unfoldable pub arena_allocate : Arenas → Ptr → ℕ → Result (Ptr × Arenas)
unfolding write
arena_allocate a arena size =
    let h = a.header arena in
    if ltb ((page_size + 2 ^ 64 - (h.used_size + sizeof_header) % 2 ^ 64) % 2 ^ 64) size
    then panic subarenas_unsupported
    else ok (
      (arena + (h.used_size + sizeof_header)) % 2 ^ 64,
      record a {
        header = write a.header arena (record h { used_size = (h.used_size + size) % 2 ^ 64 });
      },
    )

-- The three steps of arena_destroy.
unfoldable pub unlink_next : Ptr → Arenas → Result Arenas
unfolding write
unlink_next arena a =
    let h = a.header arena in
    let n = a.header h.next in
    if h.next == null
    then ok a
    else if n.prev == arena
    then ok (record a { header = write a.header h.next (record n { prev = h.prev }) })
    else panic corrupted_arena_list

unfoldable pub unlink_prev : Ptr → Arenas → Result Arenas
unfolding write
unlink_prev arena a =
    let h = a.header arena in
    let p = a.header h.prev in
    if h.prev == null
    then ok a
    else if p.next == arena
    then ok (record a { header = write a.header h.prev (record p { next = h.next }) })
    else panic corrupted_arena_list

unfoldable pub unlink_head : Ptr → Arenas → Result Arenas
unlink_head arena a =
    let h = a.header arena in
    if a.head == arena
    then if h.prev == null then ok (record a { head = h.next }) else panic corrupted_arena_list
    else ok a

unfoldable pub arena_destroy : Arenas → Ptr → Result Arenas
arena_destroy a arena = do a1 ← unlink_next arena a; a2 ← unlink_prev arena a1; unlink_head arena a2

-- The page is what mm_get_free_page returned.
unfoldable pub arena_create : Arenas → ℕ → Result (Ptr × Arenas)
unfolding write
arena_create a free_page =
    let arena_page = p2v_identity_map free_page in
    let fresh =
      write a.header arena_page
        (record { prev = null; next = a.head; subarenas = null; used_size = 0 }) in
    let old = fresh a.head in
    if a.head == null
    then ok (arena_page, record a { head = arena_page; header = fresh })
    else if old.prev == null
    then ok (
      arena_page,
      record a {
        head = arena_page;
        header = write fresh a.head (record old { prev = arena_page });
      },
    )
    else panic corrupted_arena_list

-- ===== src/Memory.antt =====
-- Physical memory as the code reaches it through the identity map of
-- common/include/rkhv/memory_map.h, and the memset of common/include/rkhv/mem.h.
pub mod Bytes
use rkhv.Base.{ℕ, ◌+◌, ◌-◌, ◌/◌, ◌%◌, ◌^◌, ◌<◌, ◌≡◌, ◌&&◌, arith, ltb, leb, ◌==◌, if◌then◌else◌}

-- The 64-bit words of physical memory, by their number (the address divided by 8).
abbrev pub Memory : Type 0
Memory = ℕ → ℕ

abbrev pub page_size : ℕ
page_size = 0x1000

-- RKHV_PHYSICAL_MEMORY_BASE
abbrev pub physical_memory_base : ℕ
physical_memory_base = 0x0000010000000000

unfoldable pub p2v_identity_map : ℕ → ℕ
p2v_identity_map pa = (pa + physical_memory_base) % 2 ^ 64

unfoldable pub v2p_identity_map : ℕ → ℕ
v2p_identity_map va = (va + 2 ^ 64 - physical_memory_base) % 2 ^ 64

pub v2p_identity_map-p2v_identity_map :
    (pa : ℕ) → pa < 2 ^ 64 → v2p_identity_map (p2v_identity_map pa) ≡ pa
unfolding v2p_identity_map p2v_identity_map
v2p_identity_map-p2v_identity_map pa h = omega arith

-- `table[i]` of a `uint64_t*` that points at the physical address `table`.
unfoldable pub entry : Memory → ℕ → ℕ → ℕ
entry m table i = m (table / 8 + i)

-- `table[i] = v`
unfoldable pub set_entry : Memory → ℕ → ℕ → ℕ → Memory
set_entry m table i v w = if w == table / 8 + i then v else m w

-- `memset(page, 0, PAGE_SIZE)`
unfoldable pub clear_page : Memory → ℕ → Memory
clear_page m page w = if leb (page / 8) w && ltb w (page / 8 + page_size / 8) then 0 else m w

abbrev pub IsPage : ℕ → Type 0
IsPage p = p % page_size ≡ 0

pub entry-set_entry :
    (m : Memory) (s t i j v : ℕ)
    → IsPage s
    → IsPage t
    → i < 512
    → j < 512
    → entry (set_entry m s i v) t j ≡ (if t == s && j == i then v else entry m t j)
unfolding entry set_entry
entry-set_entry m s t i j v ps pt hi hj = ground arith

pub entry-clear_page :
    (m : Memory) (s t j : ℕ)
    → IsPage s
    → IsPage t
    → j < 512
    → entry (clear_page m s) t j ≡ (if t == s then 0 else entry m t j)
unfolding entry clear_page
entry-clear_page m s t j ps pt hj = ground arith

-- ===== src/Mm/Arena/Chain.antt =====
-- The linked list of arenas as a list of pointers.
use rkhv.Base.{◌≡◌, ◌≢◌, Bool, false, ◌||◌, List, [], ◌∷◌, arith, ◌==◌}
use rkhv.Mm.Arena.{Ptr, null, Header, Arenas, write}

abbrev pub mem : Ptr → List Ptr → Bool
mem p [] = false
mem p (x ∷ xs) = p == x || mem p xs

-- The first of the list, or NULL.
abbrev pub first : List Ptr → Ptr
first [] = null
first (x ∷ xs) = x

-- From the predecessor `prev` on, the list goes through the distinct arenas `xs` to NULL, and the
-- links back agree.
abbrev pub IsChain : (Ptr → Header) → Ptr → List Ptr → Type 0
IsChain f prev [] = Unit {0}
IsChain f prev (x ∷ xs) =
    (x ≢ null)
    × (mem x xs ≡ false)
    × ((f x).prev ≡ prev)
    × ((f x).next ≡ first xs)
    × ((f x).subarenas ≡ null)
    × IsChain f x xs

pub record IsArenas (a : Arenas) (xs : List Ptr) : Type 0 where
  pub head_is : a.head ≡ first xs
  pub chain : IsChain a.header null xs

-- A chain does not see writes to other places.
pub IsChain-write :
    (f : Ptr → Header) (p : Ptr) (h : Header) (prev : Ptr) (xs : List Ptr)
    → mem p xs ≡ false
    → IsChain f prev xs
    → IsChain (write f p h) prev xs
unfolding write
IsChain-write f p h prev [] out c = tt
IsChain-write f p h prev (x ∷ xs) out c =
    let ne : (x == p) ≡ false = ground arith in
    rw (ne, write) (c.0, c.1, c.2, c.3, c.4, IsChain-write f p h x xs (ground arith) c.5)

-- ===== src/Mm/Arena/Lists.antt =====
-- The list of arenas in hv/src/memory_management/arena.c, linked both ways, and arena_create.
use rkhv.Base.{
  ℕ, ◌≡◌, ◌≢◌, refl, sym, ◌∙◌, Bool, true, false, ◌||◌, List, [], ◌∷◌, ◌++◌, arith, ◌==◌,
}
use rkhv.Base.Result.{ok}
use rkhv.Memory.{p2v_identity_map}
use rkhv.Mm.Arena.{Ptr, null, Header, Arenas, write, arena_create}
use rkhv.Mm.Arena.Chain.{mem, first, IsChain, IsArenas, IsChain-write}

-- A new arena goes to the front of the list, and the PANIC for a corrupted list is not reached.
pub arena_create-IsArenas :
    (a : Arenas) (xs : List Ptr) (free_page : ℕ)
    → IsArenas a xs
    → p2v_identity_map free_page ≢ null
    → mem (p2v_identity_map free_page) xs ≡ false
    → (a' : Arenas) × (arena_create a free_page ≡ ok (p2v_identity_map free_page, a'))
      × IsArenas a' (p2v_identity_map free_page ∷ xs)
unfolding arena_create
arena_create-IsArenas a [] free_page is ne out =
    let page = p2v_identity_map free_page in
    let f =
      write a.header page
        (record { prev = null; next = a.head; subarenas = null; used_size = 0 }) in
    (
      record a { head = page; header = f },
      rw is.head_is refl,
      record {
        head_is = refl;
        chain = (ne, refl, ground arith, ground (arith, is.head_is), ground arith, tt);
      },
    )
arena_create-IsArenas a (x ∷ xs) free_page is ne out =
    let page = p2v_identity_map free_page in
    let f =
      write a.header page
        (record { prev = null; next = a.head; subarenas = null; used_size = 0 }) in
    let f' = write f a.head (record (f a.head) { prev = page }) in
    let eh = is.head_is in
    let c = is.chain in
    (
      record a { head = page; header = f' },
      ground (arith, eh, c.2, c.0),
      record {
        head_is = refl;
        chain = (
          ne,
          out,
          ground (arith, eh),
          ground (arith, eh),
          ground (arith, eh),
          (
            c.0,
            c.1,
            ground (arith, eh),
            ground (arith, eh, c.3),
            ground (arith, eh, c.4),
            IsChain-write f a.head _ x xs (rw eh c.1)
                (IsChain-write a.header page _ x xs (ground arith) c.5),
          ),
        );
      },
    )

-- What unlinking the arena between `pv` and `nx` does to the headers.
pub record IsUnlinked (f f' : Ptr → Header) (pv nx : Ptr) : Type 0 where
  pub prev_same : (q : Ptr) → q ≢ nx → (f' q).prev ≡ (f q).prev
  pub prev_new : nx ≢ null → (f' nx).prev ≡ pv
  pub next_same : (q : Ptr) → q ≢ pv → (f' q).next ≡ (f q).next
  pub next_new : pv ≢ null → (f' pv).next ≡ nx
  pub sub_same : (q : Ptr) → (f' q).subarenas ≡ (f q).subarenas

abbrev pub last : Ptr → List Ptr → Ptr
last prev [] = prev
last prev (y ∷ ys) = last y ys

pub ||-eq-false : (a b : Bool) → (a || b) ≡ false → (a ≡ false) × (b ≡ false)
||-eq-false false b e = (refl, e)
||-eq-false true b e = (e, cc)

mem-append_drop :
    (p x : Ptr) (ys zs : List Ptr) → mem p (ys ++ x ∷ zs) ≡ false → mem p (ys ++ zs) ≡ false
mem-append_drop p x [] zs out = (||-eq-false (p == x) _ out).1
mem-append_drop p x (y ∷ ys) zs out =
    let h = ||-eq-false (p == y) _ out in rw (h.0) (mem-append_drop p x ys zs h.1)

pub mem-append_right : (p : Ptr) (ys zs : List Ptr) → mem p (ys ++ zs) ≡ false → mem p zs ≡ false
mem-append_right p [] zs out = out
mem-append_right p (y ∷ ys) zs out = mem-append_right p ys zs (||-eq-false (p == y) _ out).1

last-ne : (p y : Ptr) (ys zs : List Ptr) → mem p (y ∷ ys ++ zs) ≡ false → p ≢ last y ys
last-ne p y [] zs out e = let h = (||-eq-false (p == y) _ out).0 in ground arith
last-ne p y (w ∷ ys) zs out e = last-ne p w ys zs (||-eq-false (p == y) _ out).1 e

pub first-ne : (y : Ptr) (zs : List Ptr) → y ≢ null → mem y zs ≡ false → y ≢ first zs
first-ne y [] ne out e = ne e
first-ne y (z ∷ zs) ne out e = ground arith

module _ {f f' : Ptr → Header} {pv nx : Ptr} (u : IsUnlinked f f' pv nx) where
  -- Further down nothing changes.
  IsChain-same :
      (prev : Ptr) (xs : List Ptr)
      → IsChain f prev xs
      → mem pv xs ≡ false
      → mem nx xs ≡ false
      → IsChain f' prev xs
  IsChain-same prev [] c op on = tt
  IsChain-same prev (x ∷ xs) c op on =
      let np : x ≢ pv = λ e. ground arith in
      let nn : x ≢ nx = λ e. ground arith in
      (
        c.0,
        c.1,
        u.prev_same x nn ∙ c.2,
        u.next_same x np ∙ c.3,
        u.sub_same x ∙ c.4,
        IsChain-same x xs c.5 (ground arith) (ground arith),
      )

  pub IsChain-unlinked :
      (prev x : Ptr) (ys zs : List Ptr)
      → IsChain f prev (ys ++ x ∷ zs)
      → mem prev (ys ++ x ∷ zs) ≡ false
      → pv ≡ last prev ys
      → nx ≡ first zs
      → IsChain f' prev (ys ++ zs)
  IsChain-unlinked prev x [] [] c out ep en = tt
  IsChain-unlinked prev x [] (z ∷ zs) c out ep en =
      let d = c.5 in
      let np : z ≢ pv = λ e. ground arith in
      (
        d.0,
        d.1,
        ground (arith, u.prev_new (λ e. d.0 (sym en ∙ e))),
        u.next_same z np ∙ d.3,
        u.sub_same z ∙ d.4,
        IsChain-same z zs d.5 (ground arith) (ground (arith, d.1)),
      )
  IsChain-unlinked prev x (y ∷ []) zs c out ep en = (
    c.0,
    mem-append_drop y x [] zs c.1,
    u.prev_same y (λ e. first-ne y zs c.0 (mem-append_drop y x [] zs c.1) (e ∙ en)) ∙ c.2,
    ground (arith, u.next_new (λ e. c.0 (sym ep ∙ e))),
    u.sub_same y ∙ c.4,
    IsChain-unlinked y x [] zs c.5 c.1 ep en,
  )
  IsChain-unlinked prev x (y ∷ w ∷ ys) zs c out ep en =
      let fresh = mem-append_drop y x (w ∷ ys) zs c.1 in
      let np : y ≢ pv = λ e. last-ne y w ys (x ∷ zs) c.1 (e ∙ ep) in
      let nf = mem-append_right y (w ∷ ys) zs fresh in
      (
        c.0,
        fresh,
        u.prev_same y (λ e. first-ne y zs c.0 nf (e ∙ en)) ∙ c.2,
        u.next_same y np ∙ c.3,
        u.sub_same y ∙ c.4,
        IsChain-unlinked y x (w ∷ ys) zs c.5 c.1 ep en,
      )

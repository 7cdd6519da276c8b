-- ===== src/Mm/Arena/Destroy.antt =====
-- arena_destroy of hv/src/memory_management/arena.c, by the place of the arena in the list.
use rkhv.Base.{
  ◌≡◌, ◌≢◌, refl, sym, ap, subst, ◌∙◌, true, false, List, [], ◌∷◌, ◌++◌, arith, ◌==◌, Bool-cases,
  inl, inr,
}
use rkhv.Base.Result.{ok}
use rkhv.Mm.Arena.{
  Ptr, null, Header, Arenas, write, arena_destroy, unlink_next, unlink_prev, unlink_head,
}
use rkhv.Mm.Arena.Chain.{mem, first, IsChain, IsArenas}
use rkhv.Mm.Arena.Lists.{
  IsUnlinked, last, IsChain-unlinked, mem-append_right, first-ne, ||-eq-false,
}

-- A link of every arena to `other` is answered by a link back.
record Prevs (a a1 : Arenas) (nx pv : Ptr) : Type 0 where
  head_same : a1.head ≡ a.head
  prev_same : (q : Ptr) → q ≢ nx → (a1.header q).prev ≡ (a.header q).prev
  prev_new : nx ≢ null → (a1.header nx).prev ≡ pv
  next_same : (q : Ptr) → (a1.header q).next ≡ (a.header q).next
  sub_same : (q : Ptr) → (a1.header q).subarenas ≡ (a.header q).subarenas

record Nexts (a a1 : Arenas) (nx pv : Ptr) : Type 0 where
  head_same : a1.head ≡ a.head
  next_same : (q : Ptr) → q ≢ pv → (a1.header q).next ≡ (a.header q).next
  next_new : pv ≢ null → (a1.header pv).next ≡ nx
  prev_same : (q : Ptr) → (a1.header q).prev ≡ (a.header q).prev
  sub_same : (q : Ptr) → (a1.header q).subarenas ≡ (a.header q).subarenas

unlink_next_lem :
    (a : Arenas) (x : Ptr)
    → ((a.header x).next ≢ null → (a.header (a.header x).next).prev ≡ x)
    → (a1 : Arenas) × (unlink_next x a ≡ ok a1) × Prevs a a1 (a.header x).next (a.header x).prev
unfolding unlink_next write
unlink_next_lem a x back = elim (Bool-cases ((a.header x).next == null)) [
  | inl e ↦ (
    a,
    rw e refl,
    record {
      head_same = refl;
      prev_same = λ q ne. refl;
      prev_new = λ ne. absurd (ne (ground arith));
      next_same = λ q. refl;
      sub_same = λ q. refl;
    },
  )
  | inr e ↦
      let h = a.header x in
      let n = a.header h.next in
      let b : (n.prev == x) ≡ true = ground (arith, back (λ z. ground arith)) in
      (
        record a { header = write a.header h.next (record n { prev = h.prev }) },
        rw (e, b) refl,
        record {
          head_same = refl;
          prev_same = λ q ne. ground arith;
          prev_new = λ ne. ground arith;
          next_same = λ q. ground arith;
          sub_same = λ q. ground arith;
        },
      )
]

unlink_prev_lem :
    (a : Arenas) (x : Ptr)
    → ((a.header x).prev ≢ null → (a.header (a.header x).prev).next ≡ x)
    → (a1 : Arenas) × (unlink_prev x a ≡ ok a1) × Nexts a a1 (a.header x).next (a.header x).prev
unfolding unlink_prev write
unlink_prev_lem a x back = elim (Bool-cases ((a.header x).prev == null)) [
  | inl e ↦ (
    a,
    rw e refl,
    record {
      head_same = refl;
      prev_same = λ q. refl;
      next_new = λ ne. absurd (ne (ground arith));
      next_same = λ q ne. refl;
      sub_same = λ q. refl;
    },
  )
  | inr e ↦
      let h = a.header x in
      let n = a.header h.prev in
      let b : (n.next == x) ≡ true = ground (arith, back (λ z. ground arith)) in
      (
        record a { header = write a.header h.prev (record n { next = h.next }) },
        rw (e, b) refl,
        record {
          head_same = refl;
          next_same = λ q ne. ground arith;
          next_new = λ ne. ground arith;
          prev_same = λ q. ground arith;
          sub_same = λ q. ground arith;
        },
      )
]

-- What the chain says of the arena `x` between `ys` and `zs`.
record IsAt (f : Ptr → Header) (prev x : Ptr) (ys zs : List Ptr) : Type 0 where
  ne : x ≢ null
  fresh : mem x zs ≡ false
  prev_is : (f x).prev ≡ last prev ys
  next_is : (f x).next ≡ first zs
  back : first zs ≢ null → (f (first zs)).prev ≡ x

IsChain-IsAt :
    (f : Ptr → Header) (prev x : Ptr) (ys zs : List Ptr)
    → IsChain f prev (ys ++ x ∷ zs)
    → IsAt f prev x ys zs
IsChain-IsAt f prev x [] [] c = record {
  ne = c.0;
  fresh = c.1;
  prev_is = c.2;
  next_is = c.3;
  back = λ n. absurd (n refl);
}
IsChain-IsAt f prev x [] (z ∷ zs) c = record {
  ne = c.0;
  fresh = c.1;
  prev_is = c.2;
  next_is = c.3;
  back = λ n. c.5.2;
}
IsChain-IsAt f prev x (y ∷ ys) zs c =
    let r = IsChain-IsAt f y x ys zs c.5 in
    record { ne = r.ne; fresh = r.fresh; prev_is = r.prev_is; next_is = r.next_is; back = r.back }

next-last :
    (f : Ptr → Header) (prev x y : Ptr) (ys zs : List Ptr)
    → IsChain f prev (y ∷ ys ++ x ∷ zs)
    → (f (last y ys)).next ≡ x
next-last f prev x y [] zs c = c.3
next-last f prev x y (w ∷ ys) zs c = next-last f y x w ys zs c.5

ne-flip : (p q : Ptr) → (p == q) ≡ false → q ≢ p
ne-flip p q h e = ground arith

last-ne-next :
    (f : Ptr → Header) (prev x y : Ptr) (ys zs : List Ptr)
    → IsChain f prev (y ∷ ys ++ x ∷ zs)
    → x ≢ last y ys
last-ne-next f prev x y [] zs c e = ne-flip y x (||-eq-false (y == x) _ c.1).0 e
last-ne-next f prev x y (w ∷ ys) zs c e = last-ne-next f y x w ys zs c.5 e

x-ne-last :
    (f : Ptr → Header) (x : Ptr) (ys zs : List Ptr)
    → IsChain f null (ys ++ x ∷ zs)
    → x ≢ null
    → x ≢ last null ys
x-ne-last f x [] zs c ne = ne
x-ne-last f x (y ∷ ys) zs c ne = last-ne-next f null x y ys zs c

null-out : (f : Ptr → Header) (prev : Ptr) (xs : List Ptr) → IsChain f prev xs → mem null xs ≡ false
null-out f prev [] c = refl
null-out f prev (x ∷ xs) c =
    let e : (null == x) ≡ false = ground (arith, c.0) in rw e (null-out f x xs c.5)

forth :
    (f : Ptr → Header) (x : Ptr) (ys zs : List Ptr)
    → IsChain f null (ys ++ x ∷ zs)
    → last null ys ≢ null
    → (f (last null ys)).next ≡ x
forth f x [] zs c ne = absurd (ne refl)
forth f x (y ∷ ys) zs c ne = next-last f null x y ys zs c

-- The last step, on the headers that the first two have left.
unlink_head_lem :
    (a a2 : Arenas) (x : Ptr) (ys zs : List Ptr)
    → IsArenas a (ys ++ x ∷ zs)
    → a2.head ≡ a.head
    → (a2.header x).prev ≡ last null ys
    → (a2.header x).next ≡ first zs
    → (a3 : Arenas) × (unlink_head x a2 ≡ ok a3)
      × (a3.header ≡ a2.header)
      × (a3.head ≡ first (ys ++ zs))
unfolding unlink_head
unlink_head_lem a a2 x [] zs is hd pv nx =
    let e1 : (a2.head == x) ≡ true = ground (arith, hd, is.head_is) in
    let e2 : ((a2.header x).prev == null) ≡ true = ground (arith, pv) in
    (record a2 { head = (a2.header x).next }, rw (e1, e2) refl, refl, nx)
unlink_head_lem a a2 x (y ∷ ys) zs is hd pv nx =
    let out = ||-eq-false (y == x) _ (mem-append_right y ys (x ∷ zs) is.chain.1) in
    let e1 : (a2.head == x) ≡ false = ground (arith, hd, is.head_is, out.0) in
    (a2, rw e1 refl, refl, hd ∙ is.head_is)

-- Destroying any arena of the list succeeds, with neither PANIC for a corrupted list, and leaves
-- the list of the others, in their order and linked both ways.
pub arena_destroy-IsArenas :
    (a : Arenas) (x : Ptr) (ys zs : List Ptr)
    → IsArenas a (ys ++ x ∷ zs)
    → (a' : Arenas) × (arena_destroy a x ≡ ok a') × IsArenas a' (ys ++ zs)
unfolding arena_destroy
arena_destroy-IsArenas a x ys zs is =
    let t = IsChain-IsAt a.header null x ys zs is.chain in
    let pn = t.prev_is in
    let nn = t.next_is in
    let x_nx : x ≢ (a.header x).next = λ e. first-ne x zs t.ne t.fresh (e ∙ nn) in
    let s1 = unlink_next_lem a x (λ n. ap (λ p. (a.header p).prev) nn ∙ t.back (λ z. n (nn ∙ z))) in
    let p = s1.2 in
    let n1 = p.next_same x in
    let p1 = p.prev_same x x_nx in
    let s2 = unlink_prev_lem s1.0 x (λ n.
      p.next_same _
      ∙ ap (λ q. (a.header q).next) (p1 ∙ pn)
      ∙ forth a.header x ys zs is.chain (λ z. n (p1 ∙ pn ∙ z))) in
    let q = s2.2 in
    let u : IsUnlinked a.header (s2.0).header (a.header x).prev (a.header x).next = record {
      prev_same = λ r ne. q.prev_same r ∙ p.prev_same r ne;
      prev_new = λ ne. q.prev_same _ ∙ p.prev_new ne;
      next_same = λ r ne. q.next_same r (λ e. ne (e ∙ p1)) ∙ p.next_same r;
      next_new =
          λ ne. ap (λ r. (s2.0.header r).next) (sym p1) ∙ q.next_new (λ z. ne (sym p1 ∙ z)) ∙ n1;
      sub_same = λ r. q.sub_same r ∙ p.sub_same r;
    } in
    let nx2 =
      q.next_same x (λ e. x-ne-last a.header x ys zs is.chain t.ne (e ∙ p1 ∙ pn)) ∙ n1 ∙ nn in
    let s3 =
      unlink_head_lem a s2.0 x ys zs is (q.head_same ∙ p.head_same) (q.prev_same x ∙ p1 ∙ pn) nx2 in
    let c = IsChain-unlinked u null x ys zs is.chain (null-out a.header null _ is.chain) pn nn in
    (
      s3.0,
      rw (s1.1, s2.1) (s3.1),
      record { head_is = s3.3; chain = subst (λ h. IsChain h null (ys ++ zs)) (sym s3.2) c },
    )

-- ===== src/Vm/Tracked/Track.antt =====
-- vm_manager_track_page of hv/src/vmm/vm_manager.c, node by node.
use rkhv.Base.{
  ℕ, ◌+◌, ◌-◌, ◌%◌, ◌^◌, ◌<◌, ◌≤◌, ◌≡◌, ◌≢◌, refl, sym, ◌∙◌, Bool, true, false, ◌&&◌, ◌||◌, some,
  List, [], ◌∷◌, arith, ◌==◌, Bool-cases, inl, inr, ◌⊎◌, Option-cases,
}
use rkhv.Base.Result.{ok}
use rkhv.Memory.{page_size, IsPage}
use rkhv.Vm.Tracked.{
  PageType, PageList, Tracker, sizeof_page_list, matches, last_page, in_run, track_in_node,
  track_in_lists, reuse_empty, vm_manager_track_page,
}
use rkhv.Mm.Arena.Alloc.{IsRoomy, arena_allocate-Outcome}
use rkhv.Vm.Tracked.Runs.{
  IsRun, AllRuns, holds, tracked, last_page_lem, in_run_lem, kind, IsExtended, IsExtended-intro,
  within-before, within-after, within-none, within-one,
}

-- The three ways in which a node takes a page.
pub track_in_node-eq-some :
    (pa : ℕ) (ty : PageType) (pool : Bool) (n n' : PageList)
    → track_in_node pa ty pool n ≡ some n'
    → (n.pages ≢ 0)
      × (matches ty pool n ≡ true)
      × (((in_run pa n ≡ true) × (n' ≡ n))
          ⊎ ((((pa + page_size) % 2 ^ 64 ≡ n.physical_address)
                × (n' ≡ record n { physical_address = pa; pages = (n.pages + 1) % 2 ^ 56 }))
              ⊎ (((pa + 2 ^ 64 - page_size) % 2 ^ 64 ≡ last_page n)
                  × (n' ≡ record n { pages = (n.pages + 1) % 2 ^ 56 }))))
unfolding track_in_node
track_in_node-eq-some pa ty pool n n' e = elim (Bool-cases (n.pages == 0)) [
  | inl z ↦ ground (arith, z, e)
  | inr z ↦ elim (Bool-cases (matches ty pool n)) [
    | inl m ↦ elim (Bool-cases (in_run pa n)) [
      | inl i ↦ (ground arith, m, inl (i, ground (arith, z, m, i, e)))
      | inr i ↦ (ground arith, m, inr (ground (arith, z, m, i, e)))
    ]
    | inr m ↦ ground (arith, z, m, e)
  ]
]

track_in_node-IsExtended :
    (pa : ℕ) (ty : PageType) (pool : Bool) (n n' : PageList)
    → IsRun n
    → IsPage pa
    → pa < 2 ^ 52
    → track_in_node pa ty pool n ≡ some n'
    → IsExtended n n' ty pool pa
track_in_node-IsExtended pa ty pool n n' r al lt e =
    let c = track_in_node-eq-some pa ty pool n n' e in
    let a = r.aligned in
    let s = r.small in
    let la = last_page_lem n r c.0 in
    elim c.2 [
      | inl (i, en) ↦
          let w = sym (in_run_lem n pa r c.0 al) ∙ i in
          rw en (
            IsExtended-intro n n.physical_address n.pages pa ty pool a s c.1 (λ p pl. ground arith))
      | inr (inl (i, en)) ↦
          let m : (n.pages + 1) % 2 ^ 56 ≡ n.pages + 1 = omega arith in
          rw (en, m)
            (IsExtended-intro n pa _ pa ty pool al (omega arith) c.1
              (λ p pl. within-before n.physical_address n.pages pa p al pl (omega arith)))
      | inr (inr (i, en)) ↦
          let m : (n.pages + 1) % 2 ^ 56 ≡ n.pages + 1 = omega arith in
          rw (en, m)
            (IsExtended-intro n n.physical_address _ pa ty pool a (omega (arith, la)) c.1
              (λ p pl. within-after n.physical_address n.pages pa p a pl (ground (arith, la))))
    ]

-- The pages of `l'` are those of `l` and the page `pa` of the given kind.
abbrev pub Adds : List PageList → List PageList → PageType → Bool → ℕ → Type 0
Adds l l' ty pool pa =
    (ty' : PageType) (pool' : Bool) (p : ℕ)
    → IsPage p
    → tracked ty' pool' p l' ≡ (tracked ty' pool' p l || (kind ty pool ty' pool' && p == pa))

pub or_swap : (a b c : Bool) → ((a || c) || b) ≡ ((a || b) || c)
or_swap true b c = refl
or_swap false true true = refl
or_swap false true false = refl
or_swap false false true = refl
or_swap false false false = refl

pub or_assoc : (a b c : Bool) → (a || (b || c)) ≡ ((a || b) || c)
or_assoc true b c = refl
or_assoc false b c = refl

pub or_comm : (a b : Bool) → (a || b) ≡ (b || a)
or_comm true true = refl
or_comm true false = refl
or_comm false true = refl
or_comm false false = refl

module _ (pa : ℕ) (ty : PageType) (pool : Bool) (al : IsPage pa) (lt : pa < 2 ^ 52) where
  pub track_in_lists-Adds :
      (l l' : List PageList)
      → AllRuns l
      → track_in_lists pa ty pool l ≡ some l'
      → AllRuns l' × Adds l l' ty pool pa
  unfolding track_in_lists tracked
  track_in_lists-Adds [] l' r e = cc
  track_in_lists-Adds (n ∷ ns) l' r e = elim (Option-cases (track_in_node pa ty pool n)) [
    | inr (n', en) ↦
        let x = track_in_node-IsExtended pa ty pool n n' r.0 al lt en in
        let el : l' ≡ n' ∷ ns = ground (arith, en, e) in
        rw el (
          (x.run, r.1),
          λ ty' pool' p pl. rw (x.covers ty' pool' p pl) (
              or_swap (holds ty' pool' p n) (tracked ty' pool' p ns)
                (kind ty pool ty' pool' && p == pa)),
        )
    | inl en ↦ elim (Option-cases (track_in_lists pa ty pool ns)) [
      | inr (ns', es) ↦
          let x = track_in_lists-Adds ns ns' r.1 es in
          let el : l' ≡ n ∷ ns' = ground (arith, en, es, e) in
          rw el (
            (r.0, x.0),
            λ ty' pool' p pl. rw (x.1 ty' pool' p pl) (
                or_assoc (holds ty' pool' p n) (tracked ty' pool' p ns)
                  (kind ty pool ty' pool' && p == pa)),
          )
      | inl es ↦ ground (arith, en, es, e)
    ]
  ]

  abbrev pub new_list : PageList
  new_list = record { physical_address = pa; pages = 1; page_type = ty; reserved_pool = pool }

  pub new_list-IsRun : IsRun new_list
  new_list-IsRun = record { aligned = al; small = omega arith }

  pub holds-new_list :
      (ty' : PageType) (pool' : Bool) (p : ℕ)
      → IsPage p
      → holds ty' pool' p new_list ≡ (kind ty pool ty' pool' && p == pa)
  unfolding holds matches
  holds-new_list ty' pool' p pl = rw (within-one pa p al pl) refl

  holds-empty :
      (ty' : PageType) (pool' : Bool) (p : ℕ) (n : PageList)
      → n.pages ≡ 0
      → holds ty' pool' p n ≡ false
  unfolding holds matches
  holds-empty ty' pool' p n z =
      rw (z, within-none n.physical_address p) (and_false (matches ty' pool' n))
    where
      and_false : (b : Bool) → (b && false) ≡ false
      and_false true = refl
      and_false false = refl

  pub reuse_empty-Adds :
      (l l' : List PageList)
      → AllRuns l
      → reuse_empty new_list l ≡ some l'
      → AllRuns l' × Adds l l' ty pool pa
  unfolding reuse_empty tracked
  reuse_empty-Adds [] l' r e = cc
  reuse_empty-Adds (n ∷ ns) l' r e = elim (Bool-cases (n.pages == 0)) [
    | inl z ↦
        let el : l' ≡ new_list ∷ ns = ground (arith, z, e) in
        rw el (
          (new_list-IsRun, r.1),
          λ ty' pool' p pl.
              rw (holds-new_list ty' pool' p pl, holds-empty ty' pool' p n (ground arith))
                (or_comm (kind ty pool ty' pool' && p == pa) (tracked ty' pool' p ns)),
        )
    | inr z ↦ elim (Option-cases (reuse_empty new_list ns)) [
      | inr (ns', es) ↦
          let x = reuse_empty-Adds ns ns' r.1 es in
          let el : l' ≡ n ∷ ns' = ground (arith, z, es, e) in
          rw el (
            (r.0, x.0),
            λ ty' pool' p pl. rw (x.1 ty' pool' p pl) (
                or_assoc (holds ty' pool' p n) (tracked ty' pool' p ns)
                  (kind ty pool ty' pool' && p == pa)),
          )
      | inl es ↦ ground (arith, z, es, e)
    ]
  ]

  -- In a list of aligned runs below 2 ^ 52, and with room for a node in the arena, tracking a page
  -- succeeds, whether it extends a run, reuses an empty node or takes a new one: the list still
  -- consists of such runs, and for each type and pool it holds the pages it held, and for the given
  -- ones this page too.
  pub vm_manager_track_page-Adds :
      (t : Tracker)
      → AllRuns t.tracked_pages
      → IsRoomy t.arenas t.vm_manager_arena
      → (t.arenas.header t.vm_manager_arena).used_size + 32 + sizeof_page_list ≤ page_size
      → (t' : Tracker) × (vm_manager_track_page pa ty pool t ≡ ok t')
        × AllRuns t'.tracked_pages
        × Adds t.tracked_pages t'.tracked_pages ty pool pa
  unfolding vm_manager_track_page tracked
  vm_manager_track_page-Adds t r roomy room =
      elim (Option-cases (track_in_lists pa ty pool t.tracked_pages)) [
        | inr (l, e) ↦
            let x = track_in_lists-Adds t.tracked_pages l r e in
            (record t { tracked_pages = l }, rw (vm_manager_track_page, e) refl, x.0, x.1)
        | inl e ↦ elim (Option-cases (reuse_empty new_list t.tracked_pages)) [
          | inr (l, f) ↦
              let x = reuse_empty-Adds t.tracked_pages l r f in
              (record t { tracked_pages = l }, rw (vm_manager_track_page, e, f) refl, x.0, x.1)
          | inl f ↦
              elim (arena_allocate-Outcome t.arenas t.vm_manager_arena sizeof_page_list roomy) [
                | inl (_, (b, a', g, _)) ↦ (
                  record t { tracked_pages = new_list ∷ t.tracked_pages; arenas = a' },
                  rw (vm_manager_track_page, e, f, g) refl,
                  (new_list-IsRun, r),
                  λ ty' pool' p pl. rw (holds-new_list ty' pool' p pl) (
                      or_comm (kind ty pool ty' pool' && p == pa)
                        (tracked ty' pool' p t.tracked_pages)),
                )
                | inr (big, _) ↦ absurd (omega arith)
              ]
        ]
      ]

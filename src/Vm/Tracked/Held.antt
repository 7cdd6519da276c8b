-- ===== src/Vm/Tracked/Held.antt =====
-- How often vm_manager_track_page, hv/src/vmm/vm_manager.c, makes the list hold a page.
use rkhv.Base.{
  ℕ, subst, ◌*◌, ◌+◌, ◌%◌, ◌^◌, ◌<◌, ◌≡◌, sym, ◌∙◌, Bool, ◌&&◌, some, List, [], ◌∷◌, arith, ◌==◌,
  Bool-cases, inl, inr, Option-cases, if◌then◌else◌,
}
use rkhv.Base.Result.{ok, >>=-eq-ok, ok-inj}
use rkhv.Memory.{page_size, IsPage}
use rkhv.Vm.Tracked.{
  PageType, PageList, Tracker, sizeof_page_list, track_in_node, track_in_lists, reuse_empty,
  vm_manager_track_page,
}
use rkhv.Mm.Arena.{arena_allocate}
use rkhv.Vm.Tracked.Runs.{IsRun, AllRuns, count, kind, tracked, held, last_page_lem, in_run_lem}
use rkhv.Vm.Tracked.Track.{
  Adds, new_list, track_in_node-eq-some, track_in_lists-Adds, reuse_empty-Adds, new_list-IsRun,
  holds-new_list, or_comm,
}

-- One run more holds the page, and as many as before hold any other.
abbrev pub Gains : List PageList → List PageList → ℕ → Type 0
Gains l l' page = (p : ℕ) → IsPage p → held p l' ≡ held p l + (if p == page then 1 else 0)

module _ (pa : ℕ) (ty : PageType) (pool : Bool) (al : IsPage pa) (lt : pa < 2 ^ 52) where
  track_in_node-count :
      (n n' : PageList) (p : ℕ)
      → IsRun n
      → IsPage p
      → count n pa ≡ 0
      → track_in_node pa ty pool n ≡ some n'
      → count n' p ≡ count n p + (if p == pa then 1 else 0)
  track_in_node-count n n' p r pl free e =
      let c = track_in_node-eq-some pa ty pool n n' e in
      let a = r.aligned in
      let s = r.small in
      let la = last_page_lem n r c.0 in
      elim c.2 [
        | inl (i, en) ↦ absurd (ground (arith, sym (in_run_lem n pa r c.0 al) ∙ i, free))
        | inr (inl (i, en)) ↦
            let m : (n.pages + 1) % 2 ^ 56 ≡ n.pages + 1 = omega arith in
            let f : n.physical_address ≡ pa + page_size = omega arith in
            rw (en, m, f) (ground arith)
        | inr (inr (i, en)) ↦
            let m : (n.pages + 1) % 2 ^ 56 ≡ n.pages + 1 = omega arith in
            let f : pa ≡ n.physical_address + n.pages * page_size = ground (arith, la) in
            rw (en, m, f) (ground arith)
      ]

  track_in_lists-Gains :
      (l l' : List PageList)
      → AllRuns l
      → held pa l ≡ 0
      → track_in_lists pa ty pool l ≡ some l'
      → Gains l l' pa
  unfolding track_in_lists held
  track_in_lists-Gains [] l' r free e = cc
  track_in_lists-Gains (n ∷ ns) l' r free e = elim (Option-cases (track_in_node pa ty pool n)) [
    | inr (n', en) ↦
        let el : l' ≡ n' ∷ ns = ground (arith, en, e) in
        rw el (λ p pl. omega (arith, track_in_node-count n n' p r.0 pl (omega (arith, free)) en))
    | inl en ↦ elim (Option-cases (track_in_lists pa ty pool ns)) [
      | inr (ns', es) ↦
          let el : l' ≡ n ∷ ns' = ground (arith, en, es, e) in
          let x = track_in_lists-Gains ns ns' r.1 (omega (arith, free)) es in
          rw el (λ p pl. omega (arith, x p pl))
      | inl es ↦ ground (arith, en, es, e)
    ]
  ]

  new_list-count :
      (p : ℕ) → IsPage p → count (new_list pa ty pool al lt) p ≡ (if p == pa then 1 else 0)
  new_list-count p pl = ground arith

  reuse_empty-Gains :
      (l l' : List PageList) → reuse_empty (new_list pa ty pool al lt) l ≡ some l' → Gains l l' pa
  unfolding reuse_empty held
  reuse_empty-Gains [] l' e = cc
  reuse_empty-Gains (n ∷ ns) l' e = elim (Bool-cases (n.pages == 0)) [
    | inl z ↦
        let el : l' ≡ new_list pa ty pool al lt ∷ ns = ground (arith, z, e) in
        let none_here : (p : ℕ) → count n p ≡ 0 = λ p. ground (arith, z) in
        rw el (λ p pl. omega (arith, new_list-count p pl, none_here p))
    | inr z ↦ elim (Option-cases (reuse_empty (new_list pa ty pool al lt) ns)) [
      | inr (ns', es) ↦
          let el : l' ≡ n ∷ ns' = ground (arith, z, es, e) in
          let x = reuse_empty-Gains ns ns' es in rw el (λ p pl. omega (arith, x p pl))
      | inl es ↦ ground (arith, z, es, e)
    ]
  ]

  -- A page that no run held, tracked without a PANIC.
  pub record IsTracked (t t' : Tracker) : Type 0 where
    pub runs : AllRuns t'.tracked_pages
    pub adds : Adds t.tracked_pages t'.tracked_pages ty pool pa
    pub gains : Gains t.tracked_pages t'.tracked_pages pa

  pub vm_manager_track_page-IsTracked :
      (t t' : Tracker)
      → AllRuns t.tracked_pages
      → held pa t.tracked_pages ≡ 0
      → vm_manager_track_page pa ty pool t ≡ ok t'
      → IsTracked t t'
  unfolding vm_manager_track_page held tracked
  vm_manager_track_page-IsTracked t t' r free done =
      let new = new_list pa ty pool al lt in
      elim (Option-cases (track_in_lists pa ty pool t.tracked_pages)) [
        | inr (l, e) ↦
            let x = track_in_lists-Adds pa ty pool al lt t.tracked_pages l r e in
            subst (λ u. IsTracked t u) (ok-inj (rw (vm_manager_track_page, e) at done))
              (record {
                runs = x.0;
                adds = x.1;
                gains = track_in_lists-Gains t.tracked_pages l r free e;
              })
        | inl e ↦ elim (Option-cases (reuse_empty new t.tracked_pages)) [
          | inr (l, f) ↦
              let x = reuse_empty-Adds pa ty pool al lt t.tracked_pages l r f in
              subst (λ u. IsTracked t u) (ok-inj (rw (vm_manager_track_page, e, f) at done))
                (record { runs = x.0; adds = x.1; gains = reuse_empty-Gains t.tracked_pages l f })
          | inl f ↦
              let (a, got, ended) =
                >>=-eq-ok (arena_allocate t.arenas t.vm_manager_arena sizeof_page_list) _
                  (rw (vm_manager_track_page, e, f) at done) in
              subst (λ u. IsTracked t u) (ok-inj ended)
                (record {
                  runs = (new_list-IsRun pa ty pool al lt, r);
                  adds = λ ty' pool' p pl.
                      rw (tracked, holds-new_list pa ty pool al lt ty' pool' p pl)
                        (or_comm (kind ty pool ty' pool' && p == pa)
                          (tracked ty' pool' p t.tracked_pages));
                  gains = λ p pl. omega (arith, new_list-count p pl);
                })
        ]
      ]

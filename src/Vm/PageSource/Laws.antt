-- ===== src/Vm/PageSource/Laws.antt =====
-- The contracts of hv/src/vmm/vmx_ept.c and of the allocation of a machine's memory, filled by the
-- reserved pool, the tracked pages and mm_get_free_page.
use rkhv.Base.{
  ℕ, ◌+◌, ◌*◌, ◌^◌, ◌<◌, ◌≤◌, ◌≡◌, refl, sym, ap, ◌∙◌, subst, Bool, true, false, ◌||◌, some, List,
  arith, ◌==◌, if◌then◌else◌, Bool-cases, Option-cases, inl, inr, ◌⊎◌, get_elem?,
}
use rkhv.Base.Result.{ok, >>=-eq-ok, ok-inj}
use rkhv.Memory.{Memory, page_size, entry, clear_page, entry-clear_page, IsPage}
use rkhv.Mm.Chainload.{MmapDesc}
use rkhv.Mm.FreePage.{Position, is_set, page_address, mm_get_free_page}
use rkhv.Mm.FreePage.Sound.{IsAt, IsMap, IsFound, mm_get_free_page-IsFound}
use rkhv.Mm.VmxPages.{mm_page_is_free}
use rkhv.Vm.Ept.{State, take_table, vmx_get_free_ept_page}
use rkhv.Vm.Ept.Pages.{IsFresh, PageLaws}
use rkhv.Vm.GuestMemory.Step.{MemoryLaws}
use rkhv.Vm.Tracked.{
  PageType, ept, guest_physical, Tracker, in_runs, mm_page_used_by_vm_manager,
  vm_manager_track_page, vm_manager_untrack_page_from_reserved_pool,
}
use rkhv.Vm.Tracked.Runs.{held, tracked, kind}
use rkhv.Vm.Tracked.Untrack.{PoolOutcome, vm_manager_untrack_page_from_reserved_pool-PoolOutcome}
use rkhv.Vm.PageSource.{Source, users, is_free, get_free_page, track, source_pages, memory_pages}
use rkhv.Vm.PageSource.Counts.{AllRuns-in_runs, tracked-held}
use rkhv.Vm.PageSource.Step.{IsKept, IsKept-apart, IsKept-new, IsKept-write, IsKept-tracked}

-- The regions of the memory map are pages below 2 ^ 52.
pub record IsPhysical (map : List MmapDesc) : Type 0 where
  pub aligned : (i : ℕ) (d : MmapDesc) → get_elem? map i ≡ some d → IsPage d.physical_address
  pub small :
      (i : ℕ) (d : MmapDesc)
      → get_elem? map i ≡ some d
      → d.physical_address + d.pages * page_size ≤ 2 ^ 52

pub record IsSource (s : Source) (m : Memory) (used : ℕ → Bool) : Type 0 where
  pub kept : IsKept (s.tracker).tracked_pages m used
  pub physical : IsPhysical (s.chainload_page).efi_mmap_usable
  pub at : is_set s.position ≡ true → IsAt (s.chainload_page).efi_mmap_usable s.position

module _ (arenas turns : ℕ) where
  is_free-in_runs :
      (s : Source) (p : ℕ) → is_free arenas s p ≡ true → in_runs p (s.tracker).tracked_pages ≡ false
  unfolding is_free mm_page_is_free mm_page_used_by_vm_manager users
  is_free-in_runs s p free = ground arith

  -- A page of the allocator is no page of the machine.
  record IsNew (s r : Source) (p : ℕ) : Type 0 where
    page : IsPage p
    small : p < 2 ^ 52
    unheld : held p (s.tracker).tracked_pages ≡ 0
    last : Position
    result : record s { position = last } ≡ r
    at : IsAt (s.chainload_page).efi_mmap_usable last

  found-IsNew :
      (s : Source) (m : Memory) (used : ℕ → Bool) (p : ℕ) (last : Position)
      → IsSource s m used
      → IsFound (s.chainload_page).efi_mmap_usable (is_free arenas s) p last
      → IsNew s (record s { position = last }) p
  unfolding page_address
  found-IsNew s m used p last v f =
      let a = v.physical.aligned last.region f.at.desc f.at.found in
      let b = v.physical.small last.region f.at.desc f.at.found in
      let inside = f.at.inside in
      let is : p ≡ f.at.desc.physical_address + last.page * page_size =
        ground (arith, f.address_is, b, inside) in
      let page : IsPage p = omega (arith, is, a) in
      record {
        page = page;
        small = omega (arith, is, b, inside);
        unheld =
            AllRuns-in_runs (s.tracker).tracked_pages p v.kept.runs page
              (is_free-in_runs s p f.free);
        last = last;
        result = refl;
        at = f.at;
      }

  get_free_page-IsNew :
      (s r : Source) (m : Memory) (used : ℕ → Bool) (p : ℕ)
      → IsSource s m used
      → get_free_page arenas turns s ≡ ok (p, r)
      → IsNew s r p
  unfolding get_free_page
  get_free_page-IsNew s r m used p v done =
      let map = (s.chainload_page).efi_mmap_usable in
      let small : IsMap map = λ i d at. omega (arith, v.physical.small i d at) in
      elim (Option-cases (mm_get_free_page map (is_free arenas s) turns s.position)) [
        | inl e ↦ absurd (cc (rw (get_free_page, e) at done))
        | inr (found, e) ↦
            let (f, got, ended) = >>=-eq-ok found _ (rw (get_free_page, e) at done) in
            let x =
              mm_get_free_page-IsFound map (is_free arenas s) small turns s.position f.0 f.1 v.at
                (e ∙ ap some got) in
            subst (λ (y : ℕ × Source). IsNew s y.1 y.0) (ok-inj ended)
              (found-IsNew s m used f.0 f.1 v x)
      ]

  track-eq-ok :
      (ty : PageType) (pool : Bool) (p : ℕ) (s r : Source)
      → track arenas turns ty pool p s ≡ ok r
      → (t : Tracker) × (vm_manager_track_page p ty pool s.tracker ≡ ok t)
        × (record s { tracker = t } ≡ r)
  unfolding track
  track-eq-ok ty pool p s r done =
      let (t, ran, ended) = >>=-eq-ok (vm_manager_track_page p ty pool s.tracker) _ done in
      (t, ran, ok-inj ended)

  cleared : (b : Bool) {n : ℕ} → n ≡ 0 → (if b then 0 else n) ≡ 0
  cleared true e = refl
  cleared false e = e

  -- A page of the allocator, cleared and tracked.
  given-IsFresh :
      (s r q : Source) (m : Memory) (used used' : ℕ → Bool) (p : ℕ) (ty : PageType) (pool : Bool)
      → IsSource s m used
      → get_free_page arenas turns s ≡ ok (p, r)
      → track arenas turns ty pool p r ≡ ok q
      → ((t : ℕ) → used' t ≡ true → (used t ≡ true) ⊎ ((t ≡ p) × (kind ty pool ept false ≡ true)))
      → IsFresh m (clear_page m p) used p × IsSource q (clear_page m p) used'
  given-IsFresh s r q m used used' p ty pool v free tracks more =
      let x = get_free_page-IsNew s r m used p v free in
      let (t, ran, is) =
        track-eq-ok ty pool p (record s { position = x.last }) q
          (subst (λ u. track arenas turns ty pool p u ≡ ok q) (sym x.result) tracks) in
      let clear : (j : ℕ) → j < 512 → entry (clear_page m p) p j ≡ 0 = λ j h.
        let k : (p == p) ≡ true = ground arith in
        entry-clear_page m p p j x.page x.page h ∙ rw k refl in
      let unused = IsKept-new p v.kept x.unheld in
      (
        record {
          is_page = x.page;
          small = x.small;
          unused = unused;
          empty = clear;
          same = λ u j at pu h. elim (Bool-cases (u == p)) [
            | inl e ↦ let same : u ≡ p = ground (arith, e) in absurd (cc (same, at, unused))
            | inr e ↦ entry-clear_page m p u j x.page pu h ∙ rw e refl
          ];
        },
        subst (λ u. IsSource u (clear_page m p) used') is
            (record {
              kept =
                  IsKept-tracked p ty pool s.tracker t v.kept x.page x.small x.unheld clear
                    (λ u j pu at h.
                      entry-clear_page m p u j x.page pu h
                      ∙ cleared (u == p) (v.kept.empty u j pu at h))
                    more ran;
              physical = v.physical;
              at = λ set. x.at;
            }),
      )

  -- A page of the pool, tracked as a table.
  pool-IsFresh :
      (s q : Source) (m : Memory) (used used' : ℕ → Bool) (p : ℕ) (t : Tracker)
      → IsSource s m used
      → vm_manager_untrack_page_from_reserved_pool ept s.tracker ≡ some (p, t)
      → track arenas turns ept false p (record s { tracker = t }) ≡ ok q
      → ((u : ℕ) → used' u ≡ true → (used u ≡ true) ⊎ ((u ≡ p) × (kind ept false ept false ≡ true)))
      → IsFresh m m used p × IsSource q m used'
  pool-IsFresh s q m used used' p t v took tracks more =
      let (runs, page, adds, removes) =
        subst (PoolOutcome ept s.tracker) took
          (vm_manager_untrack_page_from_reserved_pool-PoolOutcome ept s.tracker v.kept.runs) in
      let (t', ran, is) = track-eq-ok ept false p (record s { tracker = t }) q tracks in
      let here : tracked ept true p (s.tracker).tracked_pages ≡ true =
        ground (arith, adds ept true p page) in
      let empty : (j : ℕ) → j < 512 → entry m p j ≡ 0 = λ j h. v.kept.empty p j page here h in
      let kept : IsKept t.tracked_pages m used = record {
        runs = runs;
        once = λ u pu. omega (arith, removes u pu, v.kept.once u pu);
        tables = λ u at.
            let (pu, on) = v.kept.tables u at in (pu, ground (arith, adds ept false u pu, on));
        empty = λ u j pu at h. v.kept.empty u j pu (ground (arith, adds ept true u pu, at)) h;
      } in
      (
        record {
          is_page = page;
          small = (tracked-held ept true p (s.tracker).tracked_pages v.kept.runs here).1;
          unused = IsKept-apart p v.kept page here;
          empty = empty;
          same = λ u j at pu h. refl;
        },
        subst (λ u. IsSource u m used') is
            (record {
              kept =
                  IsKept-tracked p ept false t t' kept page
                    (tracked-held ept true p (s.tracker).tracked_pages v.kept.runs here).1
                    (ground (arith, removes p page, v.kept.once p page)) empty
                    (λ u j pu at h. kept.empty u j pu at h) more ran;
              physical = v.physical;
              at = v.at;
            }),
      )

  -- What is to be shown of a page that was taken, with the state after it.
  abbrev pub Taken : State Source → (ℕ → Bool) → (ℕ → Bool) → Source → ℕ × State Source → Type 0
  Taken s used used' q y =
      track arenas turns ept false y.0 (y.1).rest ≡ ok q
      → ((u : ℕ) → used' u ≡ (u == y.0 || used u))
      → IsFresh s.memory (y.1).memory used y.0 × IsSource q (y.1).memory used'

  either :
      (used used' : ℕ → Bool) (p : ℕ)
      → ((u : ℕ) → used' u ≡ (u == p || used u))
      → (u : ℕ) → used' u ≡ true
      → (used u ≡ true) ⊎ ((u ≡ p) × (kind ept false ept false ≡ true))
  either used used' p more u at = elim (Bool-cases (u == p)) [
    | inl e ↦ inr (ground (arith, e), refl)
    | inr e ↦ inl (ground (arith, more u, at, e))
  ]

  pub Taken-IsFresh :
      (s s' : State Source) (used used' : ℕ → Bool) (p : ℕ) (q : Source)
      → IsSource s.rest s.memory used
      → take_table (source_pages arenas turns) s ≡ ok (p, s')
      → Taken s used used' q (p, s')
  unfolding take_table vmx_get_free_ept_page
  Taken-IsFresh s s' used used' p q v took =
      elim (Option-cases (vm_manager_untrack_page_from_reserved_pool ept (s.rest).tracker)) [
        | inr (x, e) ↦
            subst (λ (y : ℕ × State Source). Taken s used used' q y)
              (ok-inj (rw (take_table, e) at took))
              (λ tracks more.
                pool-IsFresh s.rest q s.memory used used' x.0 x.1 v e tracks
                  (either used used' x.0 more))
        | inl e ↦
            let (x, free, ended) =
              >>=-eq-ok (get_free_page arenas turns s.rest) _ (rw (take_table, e) at took) in
            subst (λ (y : ℕ × State Source). Taken s used used' q y) (ok-inj ended)
              (λ tracks more.
                given-IsFresh s.rest x.1 q s.memory used used' x.0 ept false v free tracks
                  (either used used' x.0 more))
      ]

  -- The reserved pool, the list of tracked pages and the page allocator keep the contract of the
  -- EPT code: a page that is taken for a table and tracked is a whole page below 2 ^ 52, empty and
  -- no table in use, and it, and a write to a table, leave a state of which this holds again. The
  -- regions of the memory map lie below 2 ^ 52, no two runs on the list share a page, and the pages
  -- of the pool are empty.
  unfoldable pub source-PageLaws : PageLaws (source_pages arenas turns)
  source-PageLaws = record {
    Sound = IsSource;
    fresh = λ s s' used p r v took tracks.
        (Taken-IsFresh s s' used (λ u. u == p || used u) p r v took tracks (λ u. refl)).0;
    goes_on = λ s s' used used' p r v took tracks more.
        (Taken-IsFresh s s' used used' p r v took tracks more).1;
    write = λ r m used t i value v table page h. record {
      kept = IsKept-write t i value v.kept table page h;
      physical = v.physical;
      at = v.at;
    };
  }

  pub given-same :
      (ty : PageType) (pool : Bool) (s : State Source) (used : ℕ → Bool) (p : ℕ) (r q : Source)
      → IsSource s.rest s.memory used
      → get_free_page arenas turns s.rest ≡ ok (p, r)
      → track arenas turns ty pool p r ≡ ok q
      → IsFresh s.memory (clear_page s.memory p) used p × IsSource q (clear_page s.memory p) used
  given-same ty pool s used p r q v free tracks =
      given-IsFresh s.rest r q s.memory used used p ty pool v free tracks (λ u at. inl at)

  -- They keep the contract of the allocation of a machine's memory too.
  unfoldable pub source-MemoryLaws : MemoryLaws (memory_pages arenas turns)
  unfolding source-PageLaws
  source-MemoryLaws = record {
    tables = source-PageLaws;
    reserved = given-same ept true;
    given = given-same guest_physical false;
  }

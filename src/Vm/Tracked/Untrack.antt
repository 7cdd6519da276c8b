-- ===== src/Vm/Tracked/Untrack.antt =====
-- vm_manager_untrack_page_from_reserved_pool of hv/src/vmm/vm_manager.c, node by node.
use rkhv.Base.{
  ℕ, ◌+◌, if◌then◌else◌, ◌-◌, ◌≡◌, ◌≢◌, refl, ap, subst, Bool, true, false, ◌&&◌, ◌||◌, not, Option,
  none, some, List, [], ◌∷◌, arith, ◌==◌, Bool-cases, inl, inr, Option-cases,
}
use rkhv.Memory.{IsPage}
use rkhv.Vm.Tracked.{
  PageType, PageList, Tracker, matches, last_page, untrack_in_lists,
  vm_manager_untrack_page_from_reserved_pool,
}
use rkhv.Vm.Tracked.Runs.{
  IsRun, AllRuns, within, holds, tracked, count, held, last_page_lem, kind, IsExtended-intro,
  within-last, within-none,
}
use rkhv.Vm.Tracked.Track.{Adds, or_assoc, or_swap}

abbrev less : PageList → PageList
less n = record n { pages = n.pages - 1 }

last_page-IsPage : (n : PageList) → IsRun n → n.pages ≢ 0 → IsPage (last_page n)
last_page-IsPage n r ne = let a = r.aligned in rw (last_page_lem n r ne) (omega arith)

less-matches :
    (ty : PageType) (n : PageList) → matches ty true n ≡ true → matches ty true (less n) ≡ true
unfolding matches
less-matches ty n e = e

-- A node is the shorter node with its last page.
less-covers :
    (ty ty' : PageType) (pool' : Bool) (p : ℕ) (n : PageList)
    → IsRun n
    → n.pages ≢ 0
    → matches ty true n ≡ true
    → IsPage p
    → holds ty' pool' p n
      ≡ (holds ty' pool' p (less n) || (kind ty true ty' pool' && p == last_page n))
less-covers ty ty' pool' p n r ne m al =
    let a = r.aligned in
    let s = r.small in
    let x =
      IsExtended-intro (less n) n.physical_address n.pages (last_page n) ty true a s
        (less-matches ty n m)
        (λ q ql. rw (last_page_lem n r ne) (within-last n.physical_address n.pages q a ql ne)) in
    x.covers ty' pool' p al

-- Nothing of the kind is in a node that is passed over.
holds-skipped :
    (ty : PageType) (p : ℕ) (n : PageList)
    → (not (matches ty true n) || n.pages == 0) ≡ true
    → holds ty true p n ≡ false
unfolding holds
holds-skipped ty p n e = elim (Bool-cases (matches ty true n)) [
  | inl m ↦
      let z : n.pages ≡ 0 = ground (arith, m, e) in
      ground
        (arith, m, z, within-none n.physical_address p, ap (λ k. within n.physical_address k p) z)
  | inr m ↦ rw m refl
]

-- One run less holds the page, and as many as before hold any other.
abbrev pub Removes : List PageList → List PageList → ℕ → Type 0
Removes l l' page = (p : ℕ) → IsPage p → held p l ≡ held p l' + (if p == page then 1 else 0)

less-count :
    (p : ℕ) (n : PageList)
    → IsRun n
    → n.pages ≢ 0
    → IsPage p
    → count n p ≡ count (less n) p + (if p == last_page n then 1 else 0)
less-count p n r ne al = let a = r.aligned in rw (last_page_lem n r ne) (ground arith)

abbrev pub Untracked : PageType → List PageList → Option (ℕ × List PageList) → Type 0
Untracked ty l none = (p : ℕ) → tracked ty true p l ≡ false
Untracked ty l (some (p, l')) = AllRuns l' × IsPage p × Adds l' l ty true p × Removes l l' p

untrack_in_lists-Untracked :
    (ty : PageType) (l : List PageList) → AllRuns l → Untracked ty l (untrack_in_lists ty l)
unfolding untrack_in_lists tracked held
untrack_in_lists-Untracked ty [] r = λ p. refl
untrack_in_lists-Untracked ty (n ∷ ns) r =
    let rec = untrack_in_lists-Untracked ty ns r.1 in
    elim (Bool-cases (not (matches ty true n) || n.pages == 0)) [
      | inl skip ↦ elim (Option-cases (untrack_in_lists ty ns)) [
        | inl e ↦
            let f : Untracked ty ns none = subst (Untracked ty ns) e rec in
            rw (skip, e) (λ p. rw (holds-skipped ty p n skip) (f p))
        | inr (x, e) ↦
            let f : Untracked ty ns (some x) = subst (Untracked ty ns) e rec in
            rw (skip, e)
              (
                (r.0, f.0),
                f.1,
                λ ty' pool' p al. rw (f.2 ty' pool' p al) (
                    or_assoc (holds ty' pool' p n) (tracked ty' pool' p x.1)
                      (kind ty true ty' pool' && p == x.0)),
                λ p al. omega (arith, f.3 p al),
              )
      ]
      | inr take ↦
          let ne : n.pages ≢ 0 = ground (arith, take) in
          let m : matches ty true n ≡ true = ground (arith, take) in
          let a = r.0.aligned in
          let s = r.0.small in
          rw take (
            (record { aligned = a; small = omega arith }, r.1),
            last_page-IsPage n r.0 ne,
            λ ty' pool' p al. rw (less-covers ty ty' pool' p n r.0 ne m al) (
                or_swap (holds ty' pool' p (less n)) (tracked ty' pool' p ns)
                  (kind ty true ty' pool' && p == last_page n)),
            λ p al. omega (arith, less-count p n r.0 ne al),
          )
    ]

abbrev pub PoolOutcome : PageType → Tracker → Option (ℕ × Tracker) → Type 0
PoolOutcome ty t none = (p : ℕ) → tracked ty true p t.tracked_pages ≡ false
PoolOutcome ty t (some (p, t')) =
    AllRuns t'.tracked_pages
    × IsPage p
    × Adds t'.tracked_pages t.tracked_pages ty true p
    × Removes t.tracked_pages t'.tracked_pages p

-- Taking a page of a type from the reserved pool answers `false` only when the pool of that type
-- is empty. Otherwise the list that is left, with the page it gives, holds exactly the pages of
-- the list before, for every type and pool, and the page is held by one run less, any other page
-- by as many as before: it has left the pool when no two runs share it.
pub vm_manager_untrack_page_from_reserved_pool-PoolOutcome :
    (ty : PageType) (t : Tracker)
    → AllRuns t.tracked_pages
    → PoolOutcome ty t (vm_manager_untrack_page_from_reserved_pool ty t)
unfolding vm_manager_untrack_page_from_reserved_pool
vm_manager_untrack_page_from_reserved_pool-PoolOutcome ty t r =
    let u = untrack_in_lists-Untracked ty t.tracked_pages r in
    elim (Option-cases (untrack_in_lists ty t.tracked_pages)) [
      | inl e ↦ rw (PoolOutcome, e) (subst (Untracked ty t.tracked_pages) e u)
      | inr (x, e) ↦ rw (PoolOutcome, e) (subst (Untracked ty t.tracked_pages) e u)
    ]

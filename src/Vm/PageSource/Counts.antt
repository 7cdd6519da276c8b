-- ===== src/Vm/PageSource/Counts.antt =====
-- Lists of tracked pages in which no two runs share a page, hv/src/vmm/vm_manager.c.
use rkhv.Base.{
  ℕ, ◌^◌, ◌<◌, ◌≤◌, ◌≡◌, refl, Bool, true, false, ◌&&◌, List, [], ◌∷◌, arith, ◌==◌, Bool-cases, inl,
  inr,
}
use rkhv.Memory.{IsPage}
use rkhv.Vm.Tracked.{PageType, PageList, ept, matches, in_runs}
use rkhv.Vm.Tracked.Runs.{AllRuns, within, held, holds, tracked, in_run_lem, matches-eq}

pub AllRuns-in_runs :
    (l : List PageList) (p : ℕ) → AllRuns l → IsPage p → in_runs p l ≡ false → held p l ≡ 0
unfolding in_runs held
AllRuns-in_runs [] p r pl free = refl
AllRuns-in_runs (n ∷ ns) p r pl free =
    let rest = AllRuns-in_runs ns p r.1 pl (ground (arith, free)) in
    elim (Bool-cases (n.pages == 0)) [
      | inl z ↦ ground (arith, z, rest)
      | inr z ↦ let e = in_run_lem n p r.0 (ground (arith, z)) pl in ground (arith, e, free, rest)
    ]

-- A page of a kind is held, and lies below 2 ^ 52.
pub tracked-held :
    (ty : PageType) (pool : Bool) (p : ℕ) (l : List PageList)
    → AllRuns l
    → tracked ty pool p l ≡ true
    → (1 ≤ held p l) × (p < 2 ^ 52)
unfolding tracked held holds
tracked-held ty pool p [] r e = cc e
tracked-held ty pool p (n ∷ ns) r e =
    elim (Bool-cases (matches ty pool n && within n.physical_address n.pages p)) [
      | inl h ↦ let s = r.0.small in (ground (arith, h), ground (arith, h, s))
      | inr h ↦
          let (a, b) = tracked-held ty pool p ns r.1 (ground (arith, h, e)) in (omega (arith, a), b)
    ]

-- No run is of both kinds.
kinds_apart : (n : PageList) → matches ept true n ≡ true → matches ept false n ≡ false
kinds_apart n m = matches-eq ept ept true false n m

-- A page of both kinds is held twice.
pub tracked-twice :
    (p : ℕ) (l : List PageList)
    → AllRuns l
    → tracked ept true p l ≡ true
    → tracked ept false p l ≡ true
    → 2 ≤ held p l
unfolding tracked held holds
tracked-twice p [] r a b = cc a
tracked-twice p (n ∷ ns) r a b = elim (Bool-cases (within n.physical_address n.pages p)) [
  | inr out ↦
      let rest = tracked-twice p ns r.1 (ground (arith, out, a)) (ground (arith, out, b)) in
      omega (arith, rest)
  | inl here ↦ elim (Bool-cases (matches ept true n)) [
    | inl m ↦
        let rest = tracked-held ept false p ns r.1 (ground (arith, kinds_apart n m, b)) in
        ground (arith, here, rest.0)
    | inr m ↦
        let rest = tracked-held ept true p ns r.1 (ground (arith, m, a)) in
        ground (arith, here, rest.0)
  ]
]

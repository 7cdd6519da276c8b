-- ===== src/Vm/PageSource/Step.antt =====
-- One page more on the list of hv/src/vmm/vm_manager.c, and the tables that stand on its pages.
use rkhv.Base.{
  ℕ, ◌^◌, ◌<◌, ◌≤◌, ◌≡◌, ◌∙◌, Bool, true, false, List, arith, ◌==◌, Bool-cases, inl, inr, ◌⊎◌,
}
use rkhv.Base.Result.{ok}
use rkhv.Memory.{Memory, entry, IsPage, set_entry, entry-set_entry}
use rkhv.Vm.Tracked.{PageType, ept, PageList, Tracker, vm_manager_track_page}
use rkhv.Vm.Tracked.Runs.{AllRuns, held, tracked, kind}
use rkhv.Vm.Tracked.Held.{vm_manager_track_page-IsTracked}
use rkhv.Vm.PageSource.Counts.{tracked-held, tracked-twice}

-- The pages of a machine: no two runs share one, the tables in use are on the list, and the pages
-- of the pool are empty.
pub record IsKept (l : List PageList) (m : Memory) (used : ℕ → Bool) : Type 0 where
  pub runs : AllRuns l
  pub once : (p : ℕ) → IsPage p → held p l ≤ 1
  pub tables : (t : ℕ) → used t ≡ true → IsPage t × (tracked ept false t l ≡ true)
  pub empty : (p j : ℕ) → IsPage p → tracked ept true p l ≡ true → j < 512 → entry m p j ≡ 0

-- A page of the pool is no table.
pub IsKept-apart :
    {l : List PageList} {m : Memory} {used : ℕ → Bool} (p : ℕ)
    → IsKept l m used
    → IsPage p
    → tracked ept true p l ≡ true
    → used p ≡ false
IsKept-apart {l} {m} {used} p k pl pool = elim (Bool-cases (used p)) [
  | inr free ↦ free
  | inl table ↦
      let twice = tracked-twice p l k.runs pool (k.tables p table).1 in
      absurd (omega (arith, twice, k.once p pl))
]

-- A page that no run holds is no table.
pub IsKept-new :
    {l : List PageList} {m : Memory} {used : ℕ → Bool} (p : ℕ)
    → IsKept l m used
    → held p l ≡ 0
    → used p ≡ false
IsKept-new {l} {m} {used} p k free = elim (Bool-cases (used p)) [
  | inr e ↦ e
  | inl table ↦
      let at = tracked-held ept false p l k.runs (k.tables p table).1 in
      absurd (omega (arith, at.0, free))
]

pub IsKept-write :
    {l : List PageList} {m : Memory} {used : ℕ → Bool} (t i v : ℕ)
    → IsKept l m used
    → used t ≡ true
    → IsPage t
    → i < 512
    → IsKept l (set_entry m t i v) used
IsKept-write {l} {m} {used} t i v k table page h = record {
  runs = k.runs;
  once = k.once;
  tables = k.tables;
  empty = λ p j pl pool hj.
      let apart : (p == t) ≡ false = elim (Bool-cases (p == t)) [
        | inr e ↦ e
        | inl e ↦
            let same : p ≡ t = ground (arith, e) in
            absurd (cc (IsKept-apart p k pl pool, table, same))
      ] in
      entry-set_entry m t p i j v page pl h hj ∙ rw apart (k.empty p j pl pool hj);
}

-- A page that no run holds is tracked; `m'` is the memory with the page cleared.
pub IsKept-tracked :
    {m m' : Memory} {used used' : ℕ → Bool} (p : ℕ) (ty : PageType) (pool : Bool) (t t' : Tracker)
    → IsKept t.tracked_pages m used
    → IsPage p
    → p < 2 ^ 52
    → held p t.tracked_pages ≡ 0
    → ((j : ℕ) → j < 512 → entry m' p j ≡ 0)
    → ((q j : ℕ)
        → IsPage q
        → tracked ept true q t.tracked_pages ≡ true
        → j < 512
        → entry m' q j ≡ 0)
    → ((q : ℕ) → used' q ≡ true → (used q ≡ true) ⊎ ((q ≡ p) × (kind ty pool ept false ≡ true)))
    → vm_manager_track_page p ty pool t ≡ ok t'
    → IsKept t'.tracked_pages m' used'
IsKept-tracked {used} {used'} p ty pool t t' k page small new clear kept more done =
    let x = vm_manager_track_page-IsTracked p ty pool page small t t' k.runs new done in
    record {
      runs = x.runs;
      once = λ q ql. elim (Bool-cases (q == p)) [
        | inl e ↦ let same : q ≡ p = ground (arith, e) in ground (arith, x.gains q ql, same, new)
        | inr e ↦ ground (arith, x.gains q ql, e, k.once q ql)
      ];
      tables = λ q u. elim (more q u) [
        | inl old ↦ let (ql, at) = k.tables q old in (ql, ground (arith, x.adds ept false q ql, at))
        | inr (same, here) ↦ (rw same page, rw same (ground (arith, x.adds ept false p page, here)))
      ];
      empty = λ q j ql at h. elim (Bool-cases (q == p)) [
        | inl e ↦ let same : q ≡ p = ground (arith, e) in rw same (clear j h)
        | inr e ↦ kept q j ql (ground (arith, x.adds ept true q ql, at, e)) h
      ];
    }

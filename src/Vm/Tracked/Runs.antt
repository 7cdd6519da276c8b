-- ===== src/Vm/Tracked/Runs.antt =====
-- The pages that a list of runs stands for.
use rkhv.Base.{
  ℕ, ◌+◌, ◌-◌, ◌*◌, ◌%◌, ◌^◌, ◌<◌, ◌≤◌, ◌≡◌, ◌≢◌, refl, Bool, true, false, ◌&&◌, ◌||◌, List, [],
  ◌∷◌, arith, leb, ◌==◌, if◌then◌else◌,
}
use rkhv.Memory.{page_size, IsPage}
use rkhv.Vm.Tracked.{
  PageType, ept, guest_physical, PageList, same_type, same_pool, matches, last_page, in_run,
}

-- A run of whole pages below 2 ^ 52.
pub record IsRun (n : PageList) : Type 0 where
  pub aligned : IsPage n.physical_address
  pub small : n.physical_address + n.pages * page_size ≤ 2 ^ 52

abbrev pub AllRuns : List PageList → Type 0
AllRuns [] = Unit {0}
AllRuns (n ∷ ns) = IsRun n × AllRuns ns

abbrev pub within : ℕ → ℕ → ℕ → Bool
within first pages page = leb first page && leb (page + page_size) (first + pages * page_size)

-- The pages of the given kind in one node, and in the list.
unfoldable pub holds : PageType → Bool → ℕ → PageList → Bool
holds page_type pool page n = matches page_type pool n && within n.physical_address n.pages page

unfoldable pub tracked : PageType → Bool → ℕ → List PageList → Bool
tracked page_type pool page [] = false
tracked page_type pool page (n ∷ ns) = holds page_type pool page n || tracked page_type pool page ns

pub last_page_lem :
    (n : PageList)
    → IsRun n
    → n.pages ≢ 0
    → last_page n ≡ n.physical_address + (n.pages - 1) * page_size
unfolding last_page
last_page_lem n r ne = let a = r.small in let b : n.pages < 2 ^ 41 = omega arith in ground arith

pub in_run_lem :
    (n : PageList) (page : ℕ)
    → IsRun n
    → n.pages ≢ 0
    → IsPage page
    → in_run page n ≡ within n.physical_address n.pages page
unfolding in_run
in_run_lem n page r ne al =
    let a = r.small in let b = r.aligned in rw (last_page_lem n r ne) (ground arith)

-- The number of runs, of any kind, that hold a page.
abbrev pub count : PageList → ℕ → ℕ
count n page = if within n.physical_address n.pages page then 1 else 0

unfoldable pub held : ℕ → List PageList → ℕ
held page [] = 0
held page (n ∷ ns) = count n page + held page ns

-- The kind of pages that a node holds.
abbrev pub kind : PageType → Bool → PageType → Bool → Bool
kind page_type pool page_type' pool' = same_type page_type page_type' && same_pool pool pool'

pub matches-eq :
    (page_type page_type' : PageType) (pool pool' : Bool) (n : PageList)
    → matches page_type pool n ≡ true
    → matches page_type' pool' n ≡ kind page_type pool page_type' pool'
unfolding matches
matches-eq page_type page_type' pool pool' n e =
    go n.page_type page_type page_type' n.reserved_pool pool pool' e
  where
    go :
        (a b c : PageType) (x y z : Bool)
        → (same_type a b && same_pool x y) ≡ true
        → (same_type a c && same_pool x z) ≡ (same_type b c && same_pool y z)
    go ept ept c true true z e = refl
    go ept ept c false false z e = refl
    go guest_physical guest_physical c true true z e = refl
    go guest_physical guest_physical c false false z e = refl
    go ept ept c true false z e = cc
    go ept ept c false true z e = cc
    go guest_physical guest_physical c true false z e = cc
    go guest_physical guest_physical c false true z e = cc
    go ept guest_physical c x y z e = cc
    go guest_physical ept c x y z e = cc

-- `n'` holds the pages of `n` and one page of the given kind.
pub record IsExtended (n n' : PageList) (page_type : PageType) (pool : Bool) (page : ℕ)
    : Type 0 where
  pub run : IsRun n'
  pub covers :
      (page_type' : PageType) (pool' : Bool) (page' : ℕ)
      → IsPage page'
      → holds page_type' pool' page' n' ≡ (
          holds page_type' pool' page' n || (kind page_type pool page_type' pool' && page' == page))

-- The last page of a run, alone.
pub within-last :
    (first pages page : ℕ)
    → first % page_size ≡ 0
    → page % page_size ≡ 0
    → pages ≢ 0
    → within first pages page
      ≡ (within first (pages - 1) page || page == first + (pages - 1) * page_size)
within-last first pages page af ap ne = ground arith

-- A run with one page more, before or after it.
pub within-before :
    (first pages pa page : ℕ)
    → pa % page_size ≡ 0
    → page % page_size ≡ 0
    → first ≡ pa + page_size
    → within pa (pages + 1) page ≡ (within first pages page || page == pa)
within-before first pages pa page ap al e = ground arith

pub within-after :
    (first pages pa page : ℕ)
    → first % page_size ≡ 0
    → page % page_size ≡ 0
    → pa ≡ first + pages * page_size
    → within first (pages + 1) page ≡ (within first pages page || page == pa)
within-after first pages pa page af al e = ground arith

pub within-none : (first page : ℕ) → within first 0 page ≡ false
within-none first page = ground arith

pub within-one :
    (pa page : ℕ) → pa % page_size ≡ 0 → page % page_size ≡ 0 → within pa 1 page ≡ (page == pa)
within-one pa page ap al = ground arith

pub and_or : (k a b : Bool) → (k && (a || b)) ≡ ((k && a) || (k && b))
and_or true a b = refl
and_or false a b = refl

matches-moved :
    (n : PageList) (first pages : ℕ) (page_type : PageType) (pool : Bool)
    → matches page_type pool (record n { physical_address = first; pages = pages })
      ≡ matches page_type pool n
unfolding matches
matches-moved n first pages page_type pool = refl

pub IsExtended-intro :
    (n : PageList) (first pages page : ℕ) (page_type : PageType) (pool : Bool)
    → first % page_size ≡ 0
    → first + pages * page_size ≤ 2 ^ 52
    → matches page_type pool n ≡ true
    → ((page' : ℕ)
        → IsPage page'
        → within first pages page' ≡ (within n.physical_address n.pages page' || page' == page))
    → IsExtended n (record n { physical_address = first; pages = pages }) page_type pool page
unfolding holds
IsExtended-intro n first pages page page_type pool al small m w = record {
  run = record { aligned = al; small = small };
  covers = λ page_type' pool' page' al'.
      let e = matches-eq page_type page_type' pool pool' n m in
      rw (matches-moved n first pages page_type' pool', e, w page' al')
        (and_or (kind page_type pool page_type' pool') _ _);
}
